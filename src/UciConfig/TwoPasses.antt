-- ===== src/UciConfig/TwoPasses.antt =====
-- What the two passes of src/uci_config.c over the files of the sysfs module leave in its variables.
use quectel_rm520n_thermal.Base.{
  ◌≡◌, refl, ◌∙◌, sym, ap, ℤ, ltb_ℤ, true, Bool-cases, Option, none, some, arith, inl, inr,
}
use quectel_rm520n_thermal.CString.{Bytes}
use quectel_rm520n_thermal.Kmod.Defs.{IsInt, Kernel, int_line}
use quectel_rm520n_thermal.Kmod.Printed.{ReadsPrinted}
use quectel_rm520n_thermal.Kmod.Sysfs
use quectel_rm520n_thermal.Kmod.Sysfs.{Thresholds, show}
use quectel_rm520n_thermal.Kmod.Sysfs.Writes.{Admits, put}
use quectel_rm520n_thermal.Kmod.Sysfs.Invariant.{IsSound}
use quectel_rm520n_thermal.UciConfig.Values.{Numbers, Outside, Wanted, option_or}
use quectel_rm520n_thermal.UciConfig.Passes.{
  read_sysfs_value, write_sysfs_value, write_option, current, wanted, write_all_changed,
  write_all_options,
}
use quectel_rm520n_thermal.UciConfig.Writes.{
  IsOrdered, thresholds_of, with_all, with_upper, write_puts, all_changed, upper_only_changed,
}

-- `fscanf` reads back what the kernel shows of an `int`.
abbrev pub ScansShown : Kernel → Numbers → Type 0
ScansShown k n = (v : ℤ) → IsInt v → n.scan_int (k.scnprintf k.page_size (int_line v)) ≡ some v

-- The files of the sysfs module are there and can be opened.
pub record IsOpen (o : Outside) : Type 0 where
  pub present : o.has_sysfs ≡ true
  pub reads : (a : Sysfs.Attribute) → o.opens_read a ≡ true
  pub writes : (a : Sysfs.Attribute) → o.opens_write a ≡ true

module _ (k : Kernel) (n : Numbers) (o : Outside) (scans : ScansShown k n) (ready : IsOpen o) where
  pub current_read : (s : Thresholds) → IsSound s → current k n o s ≡ thresholds_of s
  unfolding current read_sysfs_value show
  current_read s h =
      rw
        (
          ready.reads Sysfs.temp_min,
          ready.reads Sysfs.temp_max,
          ready.reads Sysfs.temp_crit,
          ready.reads Sysfs.temp_default,
          scans s.temp_min (omega arith),
          scans s.temp_max (omega arith),
          scans s.temp_crit (omega arith),
          scans s.temp_default (omega arith),
        )
        refl

module _ (k : Kernel) (n : Numbers) (o : Outside) (reads : ReadsPrinted k) (ready : IsOpen o) where
  option_puts :
      (a : Sysfs.Attribute) (option : Option Bytes) (v c : ℤ) (s : Thresholds)
      → option_or n option c ≡ v
      → (option ≡ none → put k a v o.jiffies s ≡ s)
      → IsInt v
      → Admits a v s
      → write_option k n o a option s ≡ put k a v o.jiffies s
  unfolding write_option option_or
  option_puts a none v c s e same int ok = sym (same refl)
  option_puts a (some value) v c s e same int ok =
      ap (λ x. write_sysfs_value k n o a x s) e
      ∙ write_puts k n o reads a v s (ready.writes a) int ok

  -- The second pass puts all thresholds, where the maximum, the critical one and the default are
  -- there already.
  all_options :
      (w c : Wanted) (s : Thresholds)
      → wanted k n o c ≡ w
      → IsOrdered w
      → (o.options.temp_min ≡ none → w.temp_min ≡ s.temp_min)
      → write_all_options k n o (with_upper w s) ≡ with_all w s
  unfolding write_all_options wanted
  all_options w c s e h same =
      let t = with_upper w s in
      let u = with_all w s in
      rw
        (
          option_puts Sysfs.temp_min o.options.temp_min w.temp_min c.temp_min t
              (ap (λ x. x.temp_min) e) (λ gone. ap (λ x. record t { temp_min = x }) (same gone))
              (omega arith) (omega arith),
          option_puts Sysfs.temp_max o.options.temp_max w.temp_max c.temp_max u
              (ap (λ x. x.temp_max) e) (λ gone. refl) (omega arith) (omega arith),
          option_puts Sysfs.temp_crit o.options.temp_crit w.temp_crit c.temp_crit u
              (ap (λ x. x.temp_crit) e) (λ gone. refl) (omega arith) (omega arith),
          option_puts Sysfs.temp_default o.options.temp_default w.temp_default c.temp_default u
              (ap (λ x. x.temp_default) e) (λ gone. refl) (omega arith) (omega arith),
        )
        refl

  option_none : (option : Option Bytes) (c : ℤ) → option ≡ none → option_or n option c ≡ c
  unfolding option_or
  option_none none c e = refl
  option_none (some value) c e = cc

  min_kept :
      (w c : Wanted) → wanted k n o c ≡ w → o.options.temp_min ≡ none → w.temp_min ≡ c.temp_min
  unfolding wanted
  min_kept w c e gone =
      sym (ap (λ x. x.temp_min) e) ∙ option_none o.options.temp_min c.temp_min gone

  pub passes_put :
      (w : Wanted) (s : Thresholds)
      → wanted k n o (thresholds_of s) ≡ w
      → IsOrdered w
      → IsSound s
      → write_all_options k n o (write_all_changed k n o w (thresholds_of s) s) ≡ with_all w s
  passes_put w s e h sound = elim (Bool-cases (ltb_ℤ s.temp_max w.temp_min)) [
    | inl high ↦
        rw (upper_only_changed k n o reads w s ready.writes h sound.min_max (ground arith))
          (all_options w (thresholds_of s) s e h (min_kept w (thresholds_of s) e))
    | inr low ↦
        rw (all_changed k n o reads w s ready.writes h (ground arith))
          (all_options w (thresholds_of s) (with_all w s) e h (λ gone. refl))
  ]

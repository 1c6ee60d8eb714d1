-- ===== src/UciConfig/Writes.antt =====
-- What the writes of src/uci_config.c do to the variables of the sysfs module.
use quectel_rm520n_thermal.Base.{◌≡◌, refl, ℤ, ◌≤ℤ◌, ◌<ℤ◌, true, arith, length, []}
use quectel_rm520n_thermal.CString.{print_int}
use quectel_rm520n_thermal.Kmod.Defs.{temp_absolute_min, temp_absolute_max, IsInt, Kernel}
use quectel_rm520n_thermal.Kmod.Sysfs
use quectel_rm520n_thermal.Kmod.Sysfs.{Thresholds, store}
use quectel_rm520n_thermal.Kmod.Sysfs.Writes.{Admits, put, store_accepts}
use quectel_rm520n_thermal.Kmod.Printed.{ReadsPrinted, printed_nonempty}
use quectel_rm520n_thermal.UciConfig.Values.{Numbers, Outside, Wanted}
use quectel_rm520n_thermal.UciConfig.Passes.{write_sysfs_value, write_changed, write_all_changed}

-- Thresholds that can stand together in the sysfs module, with the default between them.
pub record IsOrdered (w : Wanted) : Type 0 where
  pub min_low : temp_absolute_min ≤ℤ w.temp_min
  pub min_max : w.temp_min <ℤ w.temp_max
  pub max_crit : w.temp_max <ℤ w.temp_crit
  pub crit_high : w.temp_crit ≤ℤ temp_absolute_max
  pub default_low : w.temp_min ≤ℤ w.temp_default
  pub default_high : w.temp_default ≤ℤ w.temp_max

-- The thresholds of a state.
abbrev pub thresholds_of : Thresholds → Wanted
thresholds_of s = record {
  temp_min = s.temp_min;
  temp_max = s.temp_max;
  temp_crit = s.temp_crit;
  temp_default = s.temp_default;
}

-- A state with other thresholds; and with all but the minimum.
abbrev pub with_all : Wanted → Thresholds → Thresholds
with_all w s = record s {
  temp_min = w.temp_min;
  temp_max = w.temp_max;
  temp_crit = w.temp_crit;
  temp_default = w.temp_default;
}

abbrev pub with_upper : Wanted → Thresholds → Thresholds
with_upper w s = record s {
  temp_max = w.temp_max;
  temp_crit = w.temp_crit;
  temp_default = w.temp_default;
}

module _ (k : Kernel) (n : Numbers) (o : Outside) (reads : ReadsPrinted k) where
  pub write_puts :
      (a : Sysfs.Attribute) (v : ℤ) (s : Thresholds)
      → o.opens_write a ≡ true
      → IsInt v
      → Admits a v s
      → write_sysfs_value k n o a v s ≡ put k a v o.jiffies s
  unfolding write_sysfs_value
  write_puts a v s up int ok =
      let e =
        store_accepts k a (print_int v []) (length (print_int v [])) o.jiffies s
          (printed_nonempty v) (reads v int) ok in
      rw (up, e) refl

  write_keeps_min :
      (v : ℤ) (s : Thresholds)
      → IsInt v
      → s.temp_max <ℤ v
      → write_sysfs_value k n o Sysfs.temp_min v s ≡ s
  unfolding write_sysfs_value store
  write_keeps_min v s int high = let e = reads v int in ground arith

  changed_keeps_min :
      (v : ℤ) (s : Thresholds)
      → IsInt v
      → s.temp_max <ℤ v
      → write_changed k n o Sysfs.temp_min v s.temp_min s ≡ s
  unfolding write_changed
  changed_keeps_min v s int high = let e = write_keeps_min v s int high in ground arith

  changed_temp_min :
      (v : ℤ) (s : Thresholds)
      → o.opens_write Sysfs.temp_min ≡ true
      → IsInt v
      → Admits Sysfs.temp_min v s
      → write_changed k n o Sysfs.temp_min v s.temp_min s ≡ record s { temp_min = v }
  unfolding write_changed
  changed_temp_min v s up int ok = let e = write_puts Sysfs.temp_min v s up int ok in ground arith

  changed_temp_max :
      (v : ℤ) (s : Thresholds)
      → o.opens_write Sysfs.temp_max ≡ true
      → IsInt v
      → Admits Sysfs.temp_max v s
      → write_changed k n o Sysfs.temp_max v s.temp_max s ≡ record s { temp_max = v }
  unfolding write_changed
  changed_temp_max v s up int ok = let e = write_puts Sysfs.temp_max v s up int ok in ground arith

  changed_temp_crit :
      (v : ℤ) (s : Thresholds)
      → o.opens_write Sysfs.temp_crit ≡ true
      → IsInt v
      → Admits Sysfs.temp_crit v s
      → write_changed k n o Sysfs.temp_crit v s.temp_crit s ≡ record s { temp_crit = v }
  unfolding write_changed
  changed_temp_crit v s up int ok = let e = write_puts Sysfs.temp_crit v s up int ok in ground arith

  changed_temp_default :
      (v : ℤ) (s : Thresholds)
      → o.opens_write Sysfs.temp_default ≡ true
      → IsInt v
      → Admits Sysfs.temp_default v s
      → write_changed k n o Sysfs.temp_default v s.temp_default s ≡ record s { temp_default = v }
  unfolding write_changed
  changed_temp_default v s up int ok =
      let e = write_puts Sysfs.temp_default v s up int ok in ground arith

  -- The three writes behind that of the minimum.
  upper_changed :
      (w : Wanted) (s : Thresholds)
      → ((a : Sysfs.Attribute) → o.opens_write a ≡ true)
      → IsOrdered w
      → s.temp_min ≤ℤ w.temp_min
      → write_changed k n o Sysfs.temp_default w.temp_default s.temp_default (
          write_changed k n o Sysfs.temp_crit w.temp_crit s.temp_crit
            (write_changed k n o Sysfs.temp_max w.temp_max s.temp_max s))
        ≡ with_upper w s
  upper_changed w s up h low =
      let t = record s { temp_max = w.temp_max } in
      let u = record t { temp_crit = w.temp_crit } in
      rw
        (
          changed_temp_max w.temp_max s (up Sysfs.temp_max) (omega arith) (omega arith),
          changed_temp_crit w.temp_crit t (up Sysfs.temp_crit) (omega arith) (omega arith),
          changed_temp_default w.temp_default u (up Sysfs.temp_default) (omega arith) (omega arith),
        )
        refl

  -- The first pass from a minimum that the old maximum allows, and from one that it does not.
  pub all_changed :
      (w : Wanted) (s : Thresholds)
      → ((a : Sysfs.Attribute) → o.opens_write a ≡ true)
      → IsOrdered w
      → w.temp_min ≤ℤ s.temp_max
      → write_all_changed k n o w (thresholds_of s) s ≡ with_all w s
  unfolding write_all_changed
  all_changed w s up h low =
      rw (changed_temp_min w.temp_min s (up Sysfs.temp_min) (omega arith) (omega arith))
        (upper_changed w (record s { temp_min = w.temp_min }) up h (omega arith))

  pub upper_only_changed :
      (w : Wanted) (s : Thresholds)
      → ((a : Sysfs.Attribute) → o.opens_write a ≡ true)
      → IsOrdered w
      → s.temp_min ≤ℤ s.temp_max
      → s.temp_max <ℤ w.temp_min
      → write_all_changed k n o w (thresholds_of s) s ≡ with_upper w s
  unfolding write_all_changed
  upper_only_changed w s up h sound high =
      rw (changed_keeps_min w.temp_min s (omega arith) high) (upper_changed w s up h (omega arith))

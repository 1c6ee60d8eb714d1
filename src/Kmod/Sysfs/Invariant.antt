-- ===== src/Kmod/Sysfs/Invariant.antt =====
-- What holds of the variables of src/kmod/main.c after any sequence of writes.
use native.Mathlib.Nat.{mod-add-mod, mod-eq_of_lt, mod-lt, add_assoc}
use quectel_rm520n_thermal.Base.{
  ℕ, ◌+◌, ◌%◌, ◌<◌, ◌≢◌, ◌≡◌, ℤ, ◌≤ℤ◌, ◌<ℤ◌, Option, some, List, [], ◌∷◌, arith, ◌∙◌,
}
use quectel_rm520n_thermal.Kmod.Defs.{
  Bytes, temp_absolute_min, temp_absolute_max, InRange, parsed, Kernel, Stored, consumed,
}
use quectel_rm520n_thermal.Kmod.Sysfs.{
  Thresholds, initial, Attribute, temp, temp_min, temp_max, temp_crit, temp_default, stats, store,
  Write, write, run,
}

-- The ordering that every writer keeps.
pub record IsSound (s : Thresholds) : Type 0 where
  pub min_low : temp_absolute_min ≤ℤ s.temp_min
  pub min_max : s.temp_min ≤ℤ s.temp_max
  pub max_high : s.temp_max ≤ℤ temp_absolute_max
  pub crit_range : InRange s.temp_crit
  pub default_range : InRange s.temp_default

pub initial-IsSound : IsSound initial
unfolding initial
initial-IsSound = ground arith

module _ (k : Kernel) where
  pub store-IsSound :
      (a : Attribute) (buf : Option Bytes) (count jiffies : ℕ) {s : Thresholds}
      → IsSound s
      → IsSound (store k a buf count jiffies s).1
  unfolding store
  store-IsSound temp buf count jiffies h = ground arith
  store-IsSound temp_min buf count jiffies h = ground arith
  store-IsSound temp_max buf count jiffies h = ground arith
  store-IsSound temp_crit buf count jiffies h = ground arith
  store-IsSound temp_default buf count jiffies h = ground arith
  store-IsSound stats buf count jiffies h = h

  -- Whatever is written to the six files, in whatever order, the minimum stays at or below the
  -- maximum, and the four thresholds stay in the absolute range of the hardware.
  pub run-IsSound : (ws : List Write) {s : Thresholds} → IsSound s → IsSound (run k ws s)
  unfolding run write
  run-IsSound [] h = h
  run-IsSound (w ∷ ws) h = run-IsSound ws (store-IsSound w.attribute w.buf w.count w.jiffies h)

  -- 1 for a write to `temp` that is consumed.
  abbrev pub counts : Attribute → Stored → ℕ
  counts temp (consumed _) = 1
  counts _ _ = 0

  -- The updates of the temperature that a run of writes makes.
  abbrev pub updates : List Write → Thresholds → ℕ
  updates [] s = 0
  updates (w ∷ ws) s = counts w.attribute (write k w s).0 + updates ws (write k w s).1

  updates_store :
      (a : Attribute) (buf : Option Bytes) (count jiffies : ℕ) (s : Thresholds)
      → s.total_updates < k.ulong_mod
      → let (r, s') = store k a buf count jiffies s in
        s'.total_updates ≡ (s.total_updates + counts a r) % k.ulong_mod
  unfolding store
  updates_store temp buf count jiffies s h = ground (arith, mod-eq_of_lt h)
  updates_store temp_min buf count jiffies s h = ground (arith, mod-eq_of_lt h)
  updates_store _ buf count jiffies s h = ground (arith, mod-eq_of_lt h)

  -- `total_updates` counts the accepted writes of `temp`, modulo the width of `unsigned long`.
  pub total_updates_run :
      (ws : List Write) (s : Thresholds)
      → s.total_updates < k.ulong_mod
      → (run k ws s).total_updates ≡ (s.total_updates + updates ws s) % k.ulong_mod
  unfolding run write
  total_updates_run [] s h = ground (arith, mod-eq_of_lt h)
  total_updates_run (w ∷ ws) s h =
      let (r, s') = store k w.attribute w.buf w.count w.jiffies s in
      let e = updates_store w.attribute w.buf w.count w.jiffies s h in
      total_updates_run ws s' (rw e (mod-lt _ (omega arith))) ∙ rw (e, mod-add-mod, add_assoc)

-- A maximum above the critical threshold is accepted, which puts the critical threshold below it.
pub temp_max_passes_crit :
    (k : Kernel) (buf : Bytes) (count jiffies : ℕ) (s : Thresholds) {v : ℤ}
    → IsSound s
    → count ≢ 0
    → k.kstrtoint buf ≡ parsed v
    → s.temp_crit <ℤ v
    → s.temp_min ≤ℤ v
    → v ≤ℤ temp_absolute_max
    → let (r, s') = store k temp_max (some buf) count jiffies s in
      (r ≡ consumed count) × (s'.temp_crit <ℤ s'.temp_max)
unfolding store
temp_max_passes_crit k buf count jiffies s h n e above low high = ground arith

-- A maximum below the default, and otherwise in range, is accepted and leaves the default above the
-- maximum, which the default's own file does not allow.
pub narrowing_strands_default :
    (k : Kernel) (buf : Bytes) (count jiffies : ℕ) (s : Thresholds) {v : ℤ}
    → count ≢ 0
    → k.kstrtoint buf ≡ parsed v
    → s.temp_min ≤ℤ v
    → v <ℤ s.temp_default
    → v ≤ℤ temp_absolute_max
    → let (r, s') = store k temp_max (some buf) count jiffies s in
      (r ≡ consumed count) × (s'.temp_max <ℤ s'.temp_default)
unfolding store
narrowing_strands_default k buf count jiffies s n e low below high = ground arith

-- ===== src/Kmod/Sysfs/Writes.antt =====
-- What a write to src/kmod/main.c's files does, against a description that does not follow the code.
use quectel_rm520n_thermal.Base.{
  ℕ, ◌+◌, ◌/◌, ◌%◌, ◌≢◌, ◌≡◌, refl, ℤ, ◌≤ℤ◌, ◌↔◌, true, Option, none, some, arith,
}
use quectel_rm520n_thermal.Kmod.Defs.{
  Bytes, temp_absolute_min, temp_absolute_max, InRange, IsInt, Errno, parsed, int_line, Kernel,
  ParsesInts, ReadsBack, consumed, rejected, shown,
}
use quectel_rm520n_thermal.Kmod.Sysfs.{
  Thresholds, Attribute, temp, temp_min, temp_max, temp_crit, temp_default, stats, store, show,
}

-- The values that a file takes in a state.
abbrev pub Admits : Attribute → ℤ → Thresholds → Type 0
Admits temp v s = Unit
Admits temp_min v s = (temp_absolute_min ≤ℤ v) × (v ≤ℤ s.temp_max)
Admits temp_max v s = (s.temp_min ≤ℤ v) × (v ≤ℤ temp_absolute_max)
Admits temp_crit v s = (s.temp_max ≤ℤ v) × (v ≤ℤ temp_absolute_max)
Admits temp_default v s = (s.temp_min ≤ℤ v) × (v ≤ℤ s.temp_max)
Admits stats v s = ⊥

-- The state behind an accepted write.
abbrev pub put : Kernel → Attribute → ℤ → ℕ → Thresholds → Thresholds
put k temp v jiffies s = record s {
  modem_temp = v;
  total_updates = (s.total_updates + 1) % k.ulong_mod;
  last_update_time = jiffies / k.hz;
}
put k temp_min v jiffies s = record s { temp_min = v }
put k temp_max v jiffies s = record s { temp_max = v }
put k temp_crit v jiffies s = record s { temp_crit = v }
put k temp_default v jiffies s = record s { temp_default = v }
put k stats v jiffies s = s

abbrev pub value_of : Attribute → Thresholds → Option ℤ
value_of temp s = some s.modem_temp
value_of temp_min s = some s.temp_min
value_of temp_max s = some s.temp_max
value_of temp_crit s = some s.temp_crit
value_of temp_default s = some s.temp_default
value_of stats s = none

module _ (k : Kernel) where
  -- A nonempty write of a number that the file admits is consumed whole and changes that file's
  -- value, and for `temp` the statistics, alone.
  pub store_accepts :
      (a : Attribute) (buf : Bytes) (count jiffies : ℕ) (s : Thresholds) {v : ℤ}
      → count ≢ 0
      → k.kstrtoint buf ≡ parsed v
      → Admits a v s
      → store k a (some buf) count jiffies s ≡ (consumed count, put k a v jiffies s)
  unfolding store
  store_accepts temp buf count jiffies s n e h = ground arith
  store_accepts temp_min buf count jiffies s n e h = ground arith
  store_accepts temp_max buf count jiffies s n e h = ground arith
  store_accepts temp_crit buf count jiffies s n e h = ground arith
  store_accepts temp_default buf count jiffies s n e h = ground arith
  store_accepts stats buf count jiffies s n e h = absurd h

  -- A write of a number is consumed exactly when it is not empty and the file admits the number.
  pub store_consumed_iff :
      (a : Attribute) (buf : Bytes) (count jiffies : ℕ) (s : Thresholds) {v : ℤ}
      → k.kstrtoint buf ≡ parsed v
      → ((store k a (some buf) count jiffies s).0 ≡ consumed count) ↔ ((count ≢ 0) × Admits a v s)
  unfolding store
  store_consumed_iff temp buf count jiffies s e = ground arith
  store_consumed_iff temp_min buf count jiffies s e = ground arith
  store_consumed_iff temp_max buf count jiffies s e = ground arith
  store_consumed_iff temp_crit buf count jiffies s e = ground arith
  store_consumed_iff temp_default buf count jiffies s e = ground arith
  store_consumed_iff stats buf count jiffies s e = ground arith

  -- A write that fails, for whatever reason, leaves every variable as it was.
  pub store_rejected :
      (a : Attribute) (buf : Option Bytes) (count jiffies : ℕ) (s : Thresholds) {e : Errno}
      → (store k a buf count jiffies s).0 ≡ rejected e
      → (store k a buf count jiffies s).1 ≡ s
  unfolding store
  store_rejected temp buf count jiffies s h = ground arith
  store_rejected temp_min buf count jiffies s h = ground arith
  store_rejected temp_max buf count jiffies s h = ground arith
  store_rejected temp_crit buf count jiffies s h = ground arith
  store_rejected temp_default buf count jiffies s h = ground arith
  store_rejected stats buf count jiffies s h = refl

  pub InRange-IsInt : (v : ℤ) → InRange v → IsInt v
  InRange-IsInt v h = omega arith

  show-put :
      (a : Attribute) (v : ℤ) (jiffies : ℕ) (s : Thresholds)
      → Admits a v s
      → show k a true (put k a v jiffies s) ≡ shown (k.scnprintf k.page_size (int_line v))
  unfolding show
  show-put stats v jiffies s h = absurd h
  show-put _ v jiffies s h = refl

  -- After an accepted write the file shows a text that the kernel reads as the number written.
  pub show-store :
      ReadsBack k
      → ParsesInts k
      → (a : Attribute) (buf : Bytes) (count jiffies : ℕ) (s : Thresholds) {v : ℤ}
      → k.kstrtoint buf ≡ parsed v
      → (store k a (some buf) count jiffies s).0 ≡ consumed count
      → (text : Bytes) × (show k a true (store k a (some buf) count jiffies s).1 ≡ shown text)
        × (k.kstrtoint text ≡ parsed v)
  show-store back ints a buf count jiffies s {v} e h =
      let (n, ok) = (store_consumed_iff a buf count jiffies s e).0 h in
      rw (store_accepts a buf count jiffies s n e ok)
        (_, show-put a v jiffies s ok, back v (ints buf v e))

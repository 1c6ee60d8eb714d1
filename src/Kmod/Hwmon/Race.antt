-- ===== src/Kmod/Hwmon/Race.antt =====
-- Callbacks that overlap: any number of writers, each between its test and its commit.
use quectel_rm520n_thermal.Base.{
  ℕ, ◌≤◌, ◌≢◌, ◌≡◌, refl, ℤ, ◌≤ℤ◌, ◌<ℤ◌, Option, some, List, [], ◌∷◌, ◌++◌, arith, All,
}
use quectel_rm520n_thermal.Kmod.Defs.{
  Bytes, temp_absolute_min, temp_absolute_max, InRange, parsed, Kernel,
}
use quectel_rm520n_thermal.Kmod.Hwmon.{
  Data, Attribute, temp1_input, temp1_min, temp1_max, temp1_crit, passed, commit, check,
}

-- The data, and the writes that have passed their tests and wait for the lock.
pub record System : Type 0 where
  pub values : Data
  pub waiting : List (Attribute × ℤ)

pub data Step (k : Kernel) : System → System → Type 0 where
  test :
      (s : System) (a : Attribute) (buf : Option Bytes) (count : ℕ) (v : ℤ)
      → check k a buf count s.values ≡ passed v
      → Step k s (record s { waiting = (a, v) ∷ s.waiting })
  take_lock :
      (s : System) (a : Attribute) (v : ℤ) (before after : List (Attribute × ℤ))
      → s.waiting ≡ before ++ ((a, v) ∷ after)
      → Step k s (record { values = commit a v s.values; waiting = before ++ after })

pub data Reach (k : Kernel) (s : System) : System → Type 0 where
  here : Reach k s s
  next : {t u : System} → Reach k s t → Step k t u → Reach k s u

-- Every value is in the absolute range.
pub record IsBounded (d : Data) : Type 0 where
  pub temp : InRange d.temp
  pub temp_min : InRange d.temp_min
  pub temp_max : InRange d.temp_max
  pub temp_crit : InRange d.temp_crit

abbrev Bounded : Attribute × ℤ → Type 0
Bounded (a, v) = InRange v

abbrev pub AllBounded : System → Type 0
AllBounded s = IsBounded s.values × All Bounded s.waiting

module _ (k : Kernel) where
  check-InRange :
      (a : Attribute) (buf : Option Bytes) (count : ℕ) (d : Data) {v : ℤ}
      → IsBounded d
      → check k a buf count d ≡ passed v
      → InRange v
  unfolding check
  check-InRange temp1_input buf count d h e = ground arith
  check-InRange temp1_min buf count d h e = ground arith
  check-InRange temp1_max buf count d h e = ground arith
  check-InRange temp1_crit buf count d h e = ground arith

  commit-IsBounded :
      (a : Attribute) (v : ℤ) (d : Data) → IsBounded d → InRange v → IsBounded (commit a v d)
  unfolding commit
  commit-IsBounded temp1_input v d h r = ground arith
  commit-IsBounded temp1_min v d h r = ground arith
  commit-IsBounded temp1_max v d h r = ground arith
  commit-IsBounded temp1_crit v d h r = ground arith

  All-drop :
      (a : Attribute) (v : ℤ) (before after : List (Attribute × ℤ))
      → All Bounded (before ++ ((a, v) ∷ after))
      → InRange v × All Bounded (before ++ after)
  All-drop a v [] after h = h
  All-drop a v (x ∷ before) after h =
      let (r, others) = All-drop a v before after h.1 in (r, (h.0, others))

  Step-AllBounded : {s t : System} → Step k s t → AllBounded s → AllBounded t
  Step-AllBounded (test s a buf count v e) (d, w) = (d, (check-InRange a buf count s.values d e, w))
  Step-AllBounded (take_lock s a v before after e) (d, w) =
      let (r, others) = All-drop a v before after (rw e at w) in
      (commit-IsBounded a v s.values d r, others)

  -- However writers overlap, every value stays in the absolute range of the hardware.
  pub Reach-AllBounded : {s t : System} → AllBounded s → Reach k s t → AllBounded t
  Reach-AllBounded h here = h
  Reach-AllBounded h (next r st) = Step-AllBounded st (Reach-AllBounded h r)

  min_passes :
      (d : Data) (buf : Bytes) (count : ℕ) {v : ℤ}
      → count ≢ 0
      → count ≤ k.page_size
      → k.kstrtoint buf ≡ parsed v
      → temp_absolute_min ≤ℤ v
      → v ≤ℤ d.temp_max
      → check k temp1_min (some buf) count d ≡ passed v
  unfolding check
  min_passes d buf count n fits e low high = ground arith

  max_passes :
      (d : Data) (buf : Bytes) (count : ℕ) {v : ℤ}
      → count ≢ 0
      → count ≤ k.page_size
      → k.kstrtoint buf ≡ parsed v
      → d.temp_min ≤ℤ v
      → v ≤ℤ temp_absolute_max
      → check k temp1_max (some buf) count d ≡ passed v
  unfolding check
  max_passes d buf count n fits e low high = ground arith

  -- Two writers that overlap can leave the minimum above the maximum, though each of the two values
  -- is one that its file takes: a maximum `hi` not below the old minimum, and a minimum `lo` not
  -- above the old maximum, with `hi` below `lo`.
  pub race_inverts :
      (d : Data) (min_buf max_buf : Bytes) (count : ℕ) {lo hi : ℤ}
      → count ≢ 0
      → count ≤ k.page_size
      → k.kstrtoint min_buf ≡ parsed lo
      → k.kstrtoint max_buf ≡ parsed hi
      → IsBounded d
      → d.temp_min ≤ℤ hi
      → hi <ℤ lo
      → lo ≤ℤ d.temp_max
      → (t : System) × Reach k (record { values = d; waiting = [] }) t
        × (t.waiting ≡ [])
        × (t.values.temp_max <ℤ t.values.temp_min)
  race_inverts d min_buf max_buf count {lo} {hi} n fits emin emax bounded low inverted high = (
    record { values = commit temp1_max hi (commit temp1_min lo d); waiting = [] },
    next
        (next
          (next
            (next here (
              test _ temp1_min (some min_buf) count lo
                (min_passes d min_buf count n fits emin (omega arith) high)))
            (test _ temp1_max (some max_buf) count hi
              (max_passes d max_buf count n fits emax low (omega arith))))
          (take_lock _ temp1_min lo ((temp1_max, hi) ∷ []) [] refl))
        (take_lock _ temp1_max hi [] [] refl),
    refl,
    unfold commit in inverted,
  )

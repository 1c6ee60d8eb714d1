-- ===== src/Kmod/Hwmon/Writes.antt =====
-- What a write to an hwmon file does when no other write overlaps it.
use quectel_rm520n_thermal.Base.{
  ℕ, ◌≤◌, ◌≢◌, ◌≡◌, ◌↔◌, refl, sym, ap, subst, ℤ, ◌≤ℤ◌, true, Option, some, List, [], ◌∷◌, arith,
}
use quectel_rm520n_thermal.Kmod.Defs.{
  Bytes, temp_absolute_min, temp_absolute_max, InRange, IsInt, Errno, parsed, int_line, Kernel,
  ParsesInts, ReadsBack, consumed, rejected, shown, Stored,
}
use quectel_rm520n_thermal.Kmod.Hwmon.{
  Data, Attribute, temp1_input, temp1_min, temp1_max, temp1_crit, passed, commit, store, check,
  show, Write, run,
}

-- The values that a file takes.
abbrev pub Admits : Attribute → ℤ → Data → Type 0
Admits temp1_input v d = InRange v
Admits temp1_min v d = (temp_absolute_min ≤ℤ v) × (v ≤ℤ d.temp_max)
Admits temp1_max v d = (d.temp_min ≤ℤ v) × (v ≤ℤ temp_absolute_max)
Admits temp1_crit v d = (d.temp_max ≤ℤ v) × (v ≤ℤ temp_absolute_max)

-- The values behind a write of `v` to a file: that of the file is `v`, each other is what it was.
abbrev pub Holds : Attribute → ℤ → Data → Data → Type 0
Holds temp1_input v d d' =
    (d'.temp ≡ v)
    × (d'.temp_min ≡ d.temp_min)
    × (d'.temp_max ≡ d.temp_max)
    × (d'.temp_crit ≡ d.temp_crit)
Holds temp1_min v d d' =
    (d'.temp ≡ d.temp)
    × (d'.temp_min ≡ v)
    × (d'.temp_max ≡ d.temp_max)
    × (d'.temp_crit ≡ d.temp_crit)
Holds temp1_max v d d' =
    (d'.temp ≡ d.temp)
    × (d'.temp_min ≡ d.temp_min)
    × (d'.temp_max ≡ v)
    × (d'.temp_crit ≡ d.temp_crit)
Holds temp1_crit v d d' =
    (d'.temp ≡ d.temp)
    × (d'.temp_min ≡ d.temp_min)
    × (d'.temp_max ≡ d.temp_max)
    × (d'.temp_crit ≡ v)

-- As for the sysfs module; the temperature is in range too.
pub record IsSound (d : Data) : Type 0 where
  pub temp_range : InRange d.temp
  pub min_low : temp_absolute_min ≤ℤ d.temp_min
  pub min_max : d.temp_min ≤ℤ d.temp_max
  pub max_high : d.temp_max ≤ℤ temp_absolute_max
  pub crit_range : InRange d.temp_crit

module _ (k : Kernel) where
  -- The two halves of a callback are the callback.
  pub store-check :
      (a : Attribute) (buf : Option Bytes) (count : ℕ) (d : Data) {v : ℤ}
      → check k a buf count d ≡ passed v
      → store k a buf count d ≡ (consumed count, commit a v d)
  unfolding store check
  store-check temp1_input buf count d h = ground arith
  store-check temp1_min buf count d h = ground arith
  store-check temp1_max buf count d h = ground arith
  store-check temp1_crit buf count d h = ground arith

  -- A write of a number, of at most a page, is a commit of it exactly when it is not empty and the
  -- file admits the number.
  pub store_commits_iff :
      (a : Attribute) (buf : Bytes) (count : ℕ) (d : Data) {v : ℤ}
      → k.kstrtoint buf ≡ parsed v
      → (store k a (some buf) count d ≡ (consumed count, commit a v d))
        ↔ ((count ≢ 0) × (count ≤ k.page_size) × Admits a v d)
  unfolding store
  store_commits_iff temp1_input buf count d e = (λ h. ground arith, λ h. ground arith)
  store_commits_iff temp1_min buf count d e = (λ h. ground arith, λ h. ground arith)
  store_commits_iff temp1_max buf count d e = (λ h. ground arith, λ h. ground arith)
  store_commits_iff temp1_crit buf count d e = (λ h. ground arith, λ h. ground arith)

  commit-Holds : (a : Attribute) (v : ℤ) (d : Data) → Holds a v d (commit a v d)
  unfolding commit
  commit-Holds temp1_input v d = (refl, refl, refl, refl)
  commit-Holds temp1_min v d = (refl, refl, refl, refl)
  commit-Holds temp1_max v d = (refl, refl, refl, refl)
  commit-Holds temp1_crit v d = (refl, refl, refl, refl)

  consumed-Admits :
      (a : Attribute) (buf : Bytes) (count : ℕ) (d : Data) {v : ℤ}
      → k.kstrtoint buf ≡ parsed v
      → (store k a (some buf) count d).0 ≡ consumed count
      → (count ≢ 0) × (count ≤ k.page_size) × Admits a v d
  unfolding store
  consumed-Admits temp1_input buf count d e h = ground arith
  consumed-Admits temp1_min buf count d e h = ground arith
  consumed-Admits temp1_max buf count d e h = ground arith
  consumed-Admits temp1_crit buf count d e h = ground arith

  -- A write of a number is consumed exactly when it is not empty, is of at most a page, and the file
  -- admits the number; then the value of the file is the number, and the other three values are as
  -- they were.
  pub store_consumed-Holds :
      (a : Attribute) (buf : Bytes) (count : ℕ) (d : Data) {v : ℤ}
      → k.kstrtoint buf ≡ parsed v
      → let (answer, d') = store k a (some buf) count d in
        ((answer ≡ consumed count) ↔ ((count ≢ 0) × (count ≤ k.page_size) × Admits a v d))
        × (answer ≡ consumed count → Holds a v d d')
  store_consumed-Holds a buf count d {v} e =
      let admits = consumed-Admits a buf count d e in
      let commits = (store_commits_iff a buf count d e).1 in
      (
        (admits, λ ok. ap (λ (x : Stored × Data). x.0) (commits ok)),
        λ h.
            subst (λ (x : Stored × Data). Holds a v d x.1) (sym (commits (admits h)))
              (commit-Holds a v d),
      )

  show-commit :
      (a : Attribute) (v : ℤ) (d : Data)
      → show k a true (commit a v d) ≡ shown (k.scnprintf k.page_size (int_line v))
  unfolding show commit
  show-commit temp1_input v d = refl
  show-commit _ v d = refl

  -- A write that fails leaves the data as it was.
  pub store_failed :
      (a : Attribute) (buf : Option Bytes) (count : ℕ) (d : Data) {e : Errno}
      → (store k a buf count d).0 ≡ rejected e
      → (store k a buf count d).1 ≡ d
  unfolding store
  store_failed temp1_input buf count d h = ground arith
  store_failed temp1_min buf count d h = ground arith
  store_failed temp1_max buf count d h = ground arith
  store_failed temp1_crit buf count d h = ground arith

  pub store-IsSound :
      (a : Attribute) (buf : Option Bytes) (count : ℕ) {d : Data}
      → IsSound d
      → IsSound (store k a buf count d).1
  unfolding store
  store-IsSound temp1_input buf count h = ground arith
  store-IsSound temp1_min buf count h = ground arith
  store-IsSound temp1_max buf count h = ground arith
  store-IsSound temp1_crit buf count h = ground arith

  -- Writes that do not overlap keep the minimum at or below the maximum, and every value in the
  -- absolute range of the hardware.
  pub run_serial-IsSound : (ws : List Write) {d : Data} → IsSound d → IsSound (run k ws d)
  unfolding run
  run_serial-IsSound [] h = h
  run_serial-IsSound (w ∷ ws) h = run_serial-IsSound ws (store-IsSound w.attribute w.buf w.count h)

  InRange-IsInt : (v : ℤ) → InRange v → IsInt v
  InRange-IsInt v h = omega arith

  -- After an accepted write, the text that the file shows is read by the kernel as the number written.
  pub show_of_store :
      ReadsBack k
      → ParsesInts k
      → (a : Attribute) (buf : Bytes) (count : ℕ) (d : Data) {v : ℤ} → k.kstrtoint buf ≡ parsed v
      → count ≢ 0
      → count ≤ k.page_size
      → Admits a v d
      → (text : Bytes) × (show k a true (store k a (some buf) count d).1 ≡ shown text)
        × (k.kstrtoint text ≡ parsed v)
  show_of_store back ints a buf count d {v} e n fits ok =
      rw ((store_commits_iff a buf count d e).1 (n, fits, ok))
        (_, show-commit a v d, back v (ints buf v e))

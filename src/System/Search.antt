-- ===== src/System/Search.antt =====
-- Which device the search of src/system.c finds, against a description that does not follow its loop.
use quectel_rm520n_thermal.Base.{
  ℕ, ◌≡◌, refl, ℤ, pos, neg, ◌≤ℤ◌, Bool, true, ◌||◌, if◌then◌else◌, Option, none, some, List, [],
  ◌∷◌, arith, inl, inr,
}
use quectel_rm520n_thermal.CString.{Bytes, codes, strcmp_eq, contains}
use quectel_rm520n_thermal.System.{
  Entry, Cache, is_exact, is_partial, candidate, named, on_candidate, dev_name_of, scan_entries,
  find_quectel_hwmon_device,
}
use quectel_rm520n_thermal.System.Number.{IsNumber, extract_hwmon_number-IsNumber}

module _ (long_max : ℕ) where
  abbrev pub or_later : (Bytes → Bool) → Option (Bytes × ℤ) → Option ℤ → Option ℤ
  or_later test none later = later
  or_later test (some (dev_name, num)) later = if test dev_name then some num else later

  -- The number of the first candidate whose device name passes a test.
  abbrev pub first_where : (Bytes → Bool) → List Entry → Option ℤ
  first_where test [] = none
  first_where test (e ∷ es) = or_later test (candidate long_max e) (first_where test es)

  abbrev pub number_or : Option ℤ → ℤ → ℤ
  number_or none d = d
  number_or (some n) d = n

  -- The first exact match; without one the first partial match; without that -1.
  abbrev found_device : List Entry → ℤ
  found_device es =
      number_or (first_where is_exact es) (number_or (first_where is_partial es) (neg 1))

  -- The two names of the device are of one rank.
  abbrev pub has_name : Bytes → Bool
  has_name dev_name =
      strcmp_eq dev_name (codes "quectel_rm520n_thermal")
      || strcmp_eq dev_name (codes "quectel_rm520n_hwmon")

  -- The first device with one of its names; without one the first whose name contains the product's;
  -- without that -1.
  abbrev pub best_device : List Entry → ℤ
  best_device es =
      number_or (first_where has_name es)
        (number_or (first_where (contains (codes "quectel_rm520n")) es) (neg 1))

  -- The candidate has a number of a device.
  abbrev Numbered : Option (Bytes × ℤ) → Type 0
  Numbered none = Unit
  Numbered (some (dev_name, num)) = (pos 0 ≤ℤ num) × (num ≤ℤ pos 999)

  named-Numbered :
      (d_name : Bytes) (dev_name : Option Bytes) (has_input : Bool)
      → Numbered (named long_max d_name dev_name has_input)
  named-Numbered d_name none has_input = tt
  named-Numbered d_name (some dev_name) has_input =
      let n = extract_hwmon_number-IsNumber long_max (some d_name) in ground arith

  candidate-Numbered : (e : Entry) → Numbered (candidate long_max e)
  unfolding candidate
  candidate-Numbered e =
      let n = named-Numbered e.d_name (dev_name_of e.name_file) e.has_input in ground arith

  found_step :
      (es : List Entry) (x : Option (Bytes × ℤ)) (fallback : ℤ)
      → pos 0 ≤ℤ fallback
      → scan_entries long_max es fallback ≡ number_or (first_where is_exact es) fallback
      → on_candidate long_max (scan_entries long_max es) x fallback
        ≡ number_or (or_later is_exact x (first_where is_exact es)) fallback
  found_step es none fallback h ih = ih
  found_step es (some (dev_name, num)) fallback h ih = ground arith

  scan_found :
      (es : List Entry) (fallback : ℤ)
      → pos 0 ≤ℤ fallback
      → scan_entries long_max es fallback ≡ number_or (first_where is_exact es) fallback
  unfolding scan_entries
  scan_found [] fallback h = refl
  scan_found (e ∷ es) fallback h =
      found_step es (candidate long_max e) fallback h (scan_found es fallback h)

  unfound_step :
      (es : List Entry) (x : Option (Bytes × ℤ))
      → Numbered x
      → scan_entries long_max es (neg 1) ≡ found_device es
      → on_candidate long_max (scan_entries long_max es) x (neg 1)
        ≡ number_or
            (or_later is_exact x (first_where is_exact es))
            (number_or (or_later is_partial x (first_where is_partial es)) (neg 1))
  unfound_step es none n ih = ih
  unfound_step es (some (dev_name, num)) n ih = let found = scan_found es num n.0 in ground arith

  scan-found_device : (es : List Entry) → scan_entries long_max es (neg 1) ≡ found_device es
  unfolding scan_entries
  scan-found_device [] = refl
  scan-found_device (e ∷ es) =
      unfound_step es (candidate long_max e) (candidate-Numbered e) (scan-found_device es)

  -- The scan finds the first device in the directory's order that is named quectel_rm520n_thermal or
  -- quectel_rm520n_hwmon, with no priority between the two names; without one the first device whose
  -- name contains the product's; without that none.
  pub scan-best_device : (es : List Entry) → scan_entries long_max es (neg 1) ≡ best_device es
  unfolding is_exact is_partial
  scan-best_device es = scan-found_device es

  scan_step :
      (es : List Entry) (x : Option (Bytes × ℤ)) (fallback : ℤ)
      → Numbered x
      → ((f : ℤ) → IsNumber f → IsNumber (scan_entries long_max es f))
      → IsNumber fallback
      → IsNumber (on_candidate long_max (scan_entries long_max es) x fallback)
  scan_step es none fallback n ih h = ih fallback h
  scan_step es (some (dev_name, num)) fallback n ih h =
      let same = ih fallback h in let new = ih num (inr n) in ground arith

  scan-IsNumber :
      (es : List Entry) (fallback : ℤ)
      → IsNumber fallback
      → IsNumber (scan_entries long_max es fallback)
  unfolding scan_entries
  scan-IsNumber [] fallback h = h
  scan-IsNumber (e ∷ es) fallback h =
      scan_step es (candidate long_max e) fallback (candidate-Numbered e) (scan-IsNumber es) h

  -- What the cache holds is the number of a device, or -1.
  abbrev pub Holds : Cache → Type 0
  Holds c = IsNumber c.device_num

  -- A search gives -1 or a number up to 999, and leaves a cache that holds such a number.
  pub find-IsNumber :
      (readable : ℤ → Bool) (entries : Option (List Entry)) (use_cache : Bool) (c : Cache)
      → Holds c
      → let (num, c') = find_quectel_hwmon_device long_max readable entries use_cache c in
        IsNumber num × Holds c'
  unfolding find_quectel_hwmon_device
  find-IsNumber readable none use_cache c h = ground arith
  find-IsNumber readable (some es) use_cache c h =
      let n = scan-IsNumber es (neg 1) (inl refl) in ground arith

  -- A search of a directory that can be opened is repeated by the next one that may use the cache, as
  -- long as the file system stays as it is.
  pub find_repeats :
      (readable : ℤ → Bool) (es : List Entry) (use_cache : Bool) (c : Cache)
      → let (num, c') = find_quectel_hwmon_device long_max readable (some es) use_cache c in
        (find_quectel_hwmon_device long_max readable (some es) true c').0 ≡ num
  unfolding find_quectel_hwmon_device
  find_repeats readable es use_cache c = ground arith

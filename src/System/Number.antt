-- ===== src/System/Number.antt =====
-- The numbers that src/system.c reads from the names of hwmon directories.
use quectel_rm520n_thermal.Base.{
  ℕ, ◌≤◌, ◌≡◌, ℤ, pos, neg, ◌≤ℤ◌, Option, none, some, [], ◌∷◌, ◌++◌, arith, ◌⊎◌,
}
use quectel_rm520n_thermal.CString.{
  Bytes, codes, starts_with, strtol, print_int, Converted, unconverted, converted,
}
use quectel_rm520n_thermal.CString.Decimal.{strtol-print_int}
use quectel_rm520n_thermal.System.{after_five, device_number, extract_hwmon_number}

-- No device, or one of the numbers that are looked for.
abbrev pub IsNumber : ℤ → Type 0
IsNumber v = (v ≡ neg 1) ⊎ ((pos 0 ≤ℤ v) × (v ≤ℤ pos 999))

device_number-IsNumber : (text : Bytes) (x : Converted) → IsNumber (device_number text x)
device_number-IsNumber [] unconverted = ground arith
device_number-IsNumber (c ∷ s) unconverted = ground arith
device_number-IsNumber text (converted num range []) = ground arith
device_number-IsNumber text (converted num range (c ∷ rest)) = ground arith

module _ (long_max : ℕ) where
  pub extract_hwmon_number-IsNumber :
      (name : Option Bytes) → IsNumber (extract_hwmon_number long_max name)
  unfolding extract_hwmon_number
  extract_hwmon_number-IsNumber none = ground arith
  extract_hwmon_number-IsNumber (some name) =
      let n = device_number-IsNumber (after_five name) (strtol long_max (after_five name)) in
      ground arith

  -- The name of a device's directory gives back the device's number, up to 999.
  pub extract_hwmon_number-print_int :
      (n : ℕ)
      → 999 ≤ long_max
      → n ≤ 999
      → extract_hwmon_number long_max (some (codes "hwmon" ++ print_int (pos n) [])) ≡ pos n
  unfolding extract_hwmon_number starts_with
  extract_hwmon_number-print_int n wide h =
      rw (strtol-print_int long_max (pos n) [] (omega arith) tt) (ground arith)

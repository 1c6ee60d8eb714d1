-- ===== src/Temperature/Width.antt =====
-- src/temperature.c: the parser, and the width of `long`.
use quectel_rm520n_thermal.Base.{
  ℕ, ◌≤◌, ◌≡◌, refl, Bool, true, false, Option, none, some, [], ◌∷◌, arith,
}
use quectel_rm520n_thermal.CString.{
  Bytes, scan, skip_spaces, clamp, strtol_digits, strtol_signed, strtol, strstr,
}
use quectel_rm520n_thermal.Temperature.{
  to_int, value_at, extract_single_temperature, extract_found, skip_quote, skip_separators, advance,
}

module _ (m m' : ℕ) (wide : 2147483647 ≤ m) (wide' : 2147483647 ≤ m') where
  to_int-clamp :
      (minus : Bool) (found : ℕ × Bytes)
      → to_int (clamp m minus found) ≡ to_int (clamp m' minus found)
  to_int-clamp true (n, rest) = ground arith
  to_int-clamp false (n, rest) = ground arith

  to_int-strtol_digits :
      (minus : Bool) (s : Bytes)
      → to_int (strtol_digits m minus s) ≡ to_int (strtol_digits m' minus s)
  unfolding strtol_digits
  to_int-strtol_digits minus [] = refl
  to_int-strtol_digits minus (c ∷ s) = ground (arith, to_int-clamp minus (scan 0 (c ∷ s)))

  to_int-strtol_signed : (s : Bytes) → to_int (strtol_signed m s) ≡ to_int (strtol_signed m' s)
  unfolding strtol_signed
  to_int-strtol_signed [] = refl
  to_int-strtol_signed (c ∷ s) = ground (
    arith,
    to_int-strtol_digits true s,
    to_int-strtol_digits false s,
    to_int-strtol_digits false (c ∷ s),
  )

  to_int-strtol : (s : Bytes) → to_int (strtol m s) ≡ to_int (strtol m' s)
  unfolding strtol
  to_int-strtol s = to_int-strtol_signed (skip_spaces s)

  value_at_width : (s : Bytes) → value_at m s ≡ value_at m' s
  unfolding value_at
  value_at_width [] = refl
  value_at_width (c ∷ s) = ground (arith, to_int-strtol (c ∷ s))

  found_width :
      (pattern : Bytes) (found : Option (Bytes × Bytes))
      → extract_found m pattern found ≡ extract_found m' pattern found
  unfolding extract_found
  found_width pattern none = refl
  found_width pattern (some (before, s)) =
      ground (arith, value_at_width (skip_quote (skip_separators (advance pattern s))))

  -- With a `long` of at least 32 bits the result does not depend on its width: a number that
  -- overflows the one is out of the range of `int` in the other.
  pub extract_single_temperature_width :
      (response pattern : Bytes)
      → extract_single_temperature m response pattern
        ≡ extract_single_temperature m' response pattern
  unfolding extract_single_temperature
  extract_single_temperature_width response pattern =
      found_width pattern (strstr pattern [] response)

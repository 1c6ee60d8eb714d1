-- ===== src/CString/Convert.antt =====
-- The results of `strtol` and the range of `long`.
use quectel_rm520n_thermal.Base.{ℕ, ◌≡◌, ℤ, Bool, true, false, [], ◌∷◌, arith}
use quectel_rm520n_thermal.CString.{
  Bytes, scan, skip_spaces, Converted, unconverted, converted, clamp, strtol_digits, strtol_signed,
  strtol,
}
use quectel_rm520n_thermal.CString.Decimal.{FitsLong}

module _ (m : ℕ) where
  abbrev InLong : Converted → Type 0
  InLong unconverted = Unit
  InLong (converted v over rest) = FitsLong m v

  clamp-InLong : (minus : Bool) (found : ℕ × Bytes) → InLong (clamp m minus found)
  clamp-InLong true (n, rest) = ground arith
  clamp-InLong false (n, rest) = ground arith

  digits-InLong : (minus : Bool) (s : Bytes) → InLong (strtol_digits m minus s)
  unfolding strtol_digits
  digits-InLong minus [] = tt
  digits-InLong minus (c ∷ s) = ground (arith, clamp-InLong minus (scan 0 (c ∷ s)))

  signed-InLong : (s : Bytes) → InLong (strtol_signed m s)
  unfolding strtol_signed
  signed-InLong [] = tt
  signed-InLong (c ∷ s) =
      ground (arith, digits-InLong true s, digits-InLong false s, digits-InLong false (c ∷ s))

  strtol-InLong : (s : Bytes) → InLong (strtol m s)
  unfolding strtol
  strtol-InLong s = signed-InLong (skip_spaces s)

  pub strtol_fits :
      (s : Bytes) {v : ℤ} {over : Bool} {rest : Bytes}
      → strtol m s ≡ converted v over rest
      → FitsLong m v
  strtol_fits s e = rw e at (strtol-InLong s)

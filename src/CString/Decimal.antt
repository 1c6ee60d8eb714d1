-- ===== src/CString/Decimal.antt =====
-- `strtol` on what "%d" prints.
use native.Mathlib.Nat.{pow-suc}
use quectel_rm520n_thermal.Base.{
  ℕ, zero, suc, ◌+◌, ◌*◌, ◌/◌, ◌%◌, ◌^◌, ◌≤◌, ◌<◌, ◌≡◌, refl, ◌∙◌, ap, ℤ, pos, negsuc, neg, ◌≤ℤ◌,
  Bool, true, false, Bool-cases, ◌==◌, inl, inr, [], ◌∷◌, ◌++◌, arith, length,
}
use quectel_rm520n_thermal.Kmod.Defs.{IsInt}
use quectel_rm520n_thermal.CString.Search.{Lacks, NotHead}
use quectel_rm520n_thermal.CString.{
  Bytes, isdigit, isspace, scan, converted, clamp, strtol_digits, strtol, digits, decimal,
  print_int,
}

-- The text does not go on with a digit.
abbrev pub EndsNumber : Bytes → Type 0
EndsNumber [] = Unit
EndsNumber (c ∷ s) = isdigit c ≡ false

scan_end : (n : ℕ) (rest : Bytes) → EndsNumber rest → scan n rest ≡ (n, rest)
unfolding scan
scan_end n [] h = refl
scan_end n (c ∷ s) h = rw h

scan_digit : (n : ℕ) (m : ℕ) (s : Bytes) → scan n ((b'0' + m % 10) ∷ s) ≡ scan (n * 10 + m % 10) s
unfolding scan
scan_digit n m s = ground arith

scan-digits : (fuel n : ℕ) (out : Bytes) → n ≤ fuel → scan 0 (digits fuel n out) ≡ scan n out
unfolding digits
scan-digits zero n out h = ground arith
scan-digits (suc fuel) n out h = elim (Bool-cases (n == 0)) [
  | inl z ↦ ground arith
  | inr nz ↦ rw nz (
      scan-digits fuel (n / 10) ((b'0' + n % 10) ∷ out) (ground arith)
      ∙ scan_digit (n / 10) n out
      ∙ ap (λ m. scan m out) (omega arith))
]

abbrev pub StartsDigit : Bytes → Type 0
StartsDigit [] = ⊥
StartsDigit (c ∷ s) = isdigit c ≡ true

digit-isdigit : (n : ℕ) → isdigit (b'0' + n % 10) ≡ true
unfolding isdigit
digit-isdigit n = ground arith

digits-StartsDigit : (fuel n : ℕ) (out : Bytes) → StartsDigit out → StartsDigit (digits fuel n out)
unfolding digits
digits-StartsDigit zero n out h = h
digits-StartsDigit (suc fuel) n out h = elim (Bool-cases (n == 0)) [
  | inl z ↦ rw z h
  | inr nz ↦ rw nz (digits-StartsDigit fuel (n / 10) _ (digit-isdigit n))
]

suc_ne_zero : (n : ℕ) → (suc n == 0) ≡ false
suc_ne_zero n = ground arith

pub decimal-StartsDigit : (n : ℕ) (rest : Bytes) → StartsDigit (decimal n rest)
unfolding decimal digits
decimal-StartsDigit zero rest = unfold isdigit in refl
decimal-StartsDigit (suc n) rest =
    rw (suc_ne_zero n) (digits-StartsDigit n (suc n / 10) _ (digit-isdigit (suc n)))

scan_zero : (rest : Bytes) → scan 0 (b'0' ∷ rest) ≡ scan 0 rest
unfolding scan
scan_zero rest = refl

scan-decimal : (n : ℕ) (rest : Bytes) → EndsNumber rest → scan 0 (decimal n rest) ≡ (n, rest)
unfolding decimal
scan-decimal n rest h = elim (Bool-cases (n == 0)) [
  | inl z ↦ rw z (scan_zero rest ∙ scan_end 0 rest h ∙ ap (λ m. (m, rest)) (ground arith))
  | inr nz ↦ rw nz (scan-digits n n rest (omega arith) ∙ scan_end n rest h)
]

digit_no_space : (c : ℕ) → isdigit c ≡ true → isspace c ≡ false
unfolding isdigit isspace
digit_no_space c h = ground arith

digit_no_sign : (c : ℕ) → isdigit c ≡ true → ((c == b'-') ≡ false) × ((c == b'+') ≡ false)
unfolding isdigit
digit_no_sign c h = ground arith

module _ (long_max : ℕ) where
  strtol_digits-clamp :
      (minus : Bool) (s : Bytes)
      → StartsDigit s
      → strtol_digits long_max minus s ≡ clamp long_max minus (scan 0 s)
  unfolding strtol_digits
  strtol_digits-clamp minus [] h = absurd h
  strtol_digits-clamp minus (c ∷ s) h = rw h

  strtol_of_digit :
      (s : Bytes) → StartsDigit s → strtol long_max s ≡ clamp long_max false (scan 0 s)
  unfolding strtol
  strtol_of_digit [] h = absurd h
  strtol_of_digit (c ∷ s) h =
      rw (digit_no_space c h, (digit_no_sign c h).0, (digit_no_sign c h).1)
        (strtol_digits-clamp false (c ∷ s) h)

  strtol_of_minus :
      (s : Bytes) → StartsDigit s → strtol long_max (b'-' ∷ s) ≡ clamp long_max true (scan 0 s)
  unfolding strtol
  strtol_of_minus s h = strtol_digits-clamp true s h

  -- The range of `long`.
  abbrev pub FitsLong : ℤ → Type 0
  FitsLong v = (neg (suc long_max) ≤ℤ v) × (v ≤ℤ pos long_max)

  -- Reading back a printed number, whatever text that is no digit follows it.
  pub strtol-print_int :
      (v : ℤ) (rest : Bytes)
      → FitsLong v
      → EndsNumber rest
      → strtol long_max (print_int v rest) ≡ converted v false rest
  unfolding print_int
  strtol-print_int (pos n) rest h e =
      strtol_of_digit _ (decimal-StartsDigit n rest) ∙ rw (scan-decimal n rest e) (ground arith)
  strtol-print_int (negsuc n) rest h e =
      strtol_of_minus _ (decimal-StartsDigit (suc n) rest)
      ∙ rw (scan-decimal (suc n) rest e) (ground arith)

digits-append :
    (fuel n : ℕ) (out rest : Bytes) → digits fuel n (out ++ rest) ≡ digits fuel n out ++ rest
unfolding digits
digits-append zero n out rest = refl
digits-append (suc fuel) n out rest =
    ground (arith, digits-append fuel (n / 10) ((b'0' + n % 10) ∷ out) rest)

-- Text behind a number stays behind it.
pub print_int-append : (v : ℤ) (rest : Bytes) → print_int v rest ≡ print_int v [] ++ rest
unfolding print_int
print_int-append (pos n) rest = ground (arith, digits-append n n [] rest)
print_int-append (negsuc n) rest = ground (arith, digits-append (suc n) (suc n) [] rest)

-- Neither a digit nor a minus sign.
abbrev pub NoNumeral : ℕ → Type 0
NoNumeral q = (isdigit q ≡ false) × ((q == b'-') ≡ false)

digit-ne : (q n : ℕ) → NoNumeral q → (q == (b'0' + n % 10)) ≡ false
unfolding isdigit
digit-ne q n h = ground arith

digits-Lacks :
    (q fuel n : ℕ) (out : Bytes) → NoNumeral q → Lacks q out → Lacks q (digits fuel n out)
unfolding digits
digits-Lacks q zero n out h l = l
digits-Lacks q (suc fuel) n out h l = elim (Bool-cases (n == 0)) [
  | inl z ↦ rw z l
  | inr nz ↦ rw nz (digits-Lacks q fuel (n / 10) _ h (digit-ne q n h, l))
]

decimal-Lacks : (q n : ℕ) → NoNumeral q → Lacks q (decimal n [])
unfolding decimal
decimal-Lacks q n h = elim (Bool-cases (n == 0)) [
  | inl z ↦ rw z (digit-ne q 0 h, tt)
  | inr nz ↦ rw nz (digits-Lacks q n n [] h tt)
]

-- A printed number consists of digits and a minus sign.
pub print_int-Lacks : (q : ℕ) (v : ℤ) → NoNumeral q → Lacks q (print_int v [])
unfolding print_int
print_int-Lacks q (pos n) h = decimal-Lacks q n h
print_int-Lacks q (negsuc n) h = (h.1, decimal-Lacks q (suc n) h)

digit-NotHead : (c : ℕ) (s : Bytes) → isdigit c ≡ false → StartsDigit s → NotHead c s
digit-NotHead c [] h k = tt
digit-NotHead c (d ∷ s) h k = ground arith

pub print_int-NotHead : (c : ℕ) (v : ℤ) (rest : Bytes) → NoNumeral c → NotHead c (print_int v rest)
unfolding print_int
print_int-NotHead c (pos n) rest h = digit-NotHead c _ h.0 (decimal-StartsDigit n rest)
print_int-NotHead c (negsuc n) rest h = h.1

digits_short :
    (k fuel n : ℕ) (out : Bytes) → n < 10 ^ k → length (digits fuel n out) ≤ length out + k
unfolding digits
digits_short k zero n out h = omega arith
digits_short zero (suc fuel) n out h = ground arith
digits_short (suc k) (suc fuel) n out h = elim (Bool-cases (n == 0)) [
  | inl z ↦ rw z (omega arith)
  | inr nz ↦ rw nz (
      omega
        (arith, digits_short k fuel (n / 10) ((b'0' + n % 10) ∷ out) (omega (arith, pow-suc 10 k))))
]

decimal_short : (n : ℕ) (rest : Bytes) → n < 10 ^ 10 → length (decimal n rest) ≤ length rest + 10
unfolding decimal
decimal_short n rest h = elim (Bool-cases (n == 0)) [
  | inl z ↦ rw z (omega arith)
  | inr nz ↦ rw nz (digits_short 10 n n rest h)
]

-- An `int` prints to at most eleven bytes.
pub print_int_short :
    (v : ℤ) (rest : Bytes) → IsInt v → length (print_int v rest) ≤ length rest + 11
unfolding print_int
print_int_short (pos n) rest h = omega (arith, decimal_short n rest (omega arith))
print_int_short (negsuc n) rest h = omega (arith, decimal_short (suc n) rest (omega arith))

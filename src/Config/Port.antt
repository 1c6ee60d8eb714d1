-- ===== src/Config/Port.antt =====
-- What is known of a serial port that `validate_serial_port` lets through.
use quectel_rm520n_thermal.Base.{
  ℕ, zero, suc, ◌≤◌, ◌≡◌, ◌↔◌, refl, true, false, none, some, [], ◌∷◌, arith, length, take,
}
use quectel_rm520n_thermal.CString.{Bytes, codes, starts_with, strstr, contains}
use quectel_rm520n_thermal.Config.{
  config_string_len, safe_strncpy, contains_any, metacharacters, validate_serial_port,
}

-- A device file named without path traversal and without shell metacharacters.
pub record IsSafe (port : Bytes) : Type 0 where
  pub device : starts_with (codes "/dev/") port ≡ true
  pub no_traversal : contains (codes "..") port ≡ false
  pub no_metacharacter : contains_any metacharacters port ≡ false

starts_with-length : (p s : Bytes) → starts_with p s ≡ true → length p ≤ length s
unfolding starts_with
starts_with-length [] s h = omega arith
starts_with-length (c ∷ p) [] h = cc
starts_with-length (c ∷ p) (d ∷ s) h = ground (arith, starts_with-length p s)

-- Validation accepts exactly the safe ports.
pub validate_serial_port_iff :
    (port : Bytes) → (validate_serial_port (some port) ≡ true) ↔ IsSafe port
unfolding validate_serial_port
validate_serial_port_iff port =
    (λ h. ground arith, λ h. ground (arith, starts_with-length (codes "/dev/") port h.device))

starts_with-take :
    (p : Bytes) (n : ℕ) (s : Bytes)
    → length p ≤ n
    → starts_with p s ≡ true
    → starts_with p (take n s) ≡ true
unfolding starts_with
starts_with-take [] n s h e = refl
starts_with-take (c ∷ p) zero s h e = absurd (omega arith)
starts_with-take (c ∷ p) (suc n) [] h e = e
starts_with-take (c ∷ p) (suc n) (d ∷ s) h e = ground (arith, starts_with-take p n s (omega arith))

starts_with_of_take :
    (p : Bytes) (n : ℕ) (s : Bytes) → starts_with p s ≡ false → starts_with p (take n s) ≡ false
unfolding starts_with
starts_with_of_take [] n s e = e
starts_with_of_take (c ∷ p) zero s e = refl
starts_with_of_take (c ∷ p) (suc n) [] e = refl
starts_with_of_take (c ∷ p) (suc n) (d ∷ s) e = ground (arith, starts_with_of_take p n s)

strstr-take :
    (p before before' : Bytes) (n : ℕ) (s : Bytes)
    → strstr p before s ≡ none
    → strstr p before' (take n s) ≡ none
unfolding strstr
strstr-take p before before' zero [] e = ground arith
strstr-take p before before' (suc n) [] e = ground arith
strstr-take p before before' zero (c ∷ s) e = ground (arith, starts_with_of_take p zero (c ∷ s))
strstr-take p before before' (suc n) (c ∷ s) e =
    ground
      (arith, starts_with_of_take p (suc n) (c ∷ s), strstr-take p (c ∷ before) (c ∷ before') n s)

contains-take :
    (p : Bytes) (n : ℕ) (s : Bytes) → contains p s ≡ false → contains p (take n s) ≡ false
unfolding contains
contains-take p n s e = ground (arith, strstr-take p [] [] n s)

contains_any-take :
    (set : Bytes) (n : ℕ) (s : Bytes)
    → contains_any set s ≡ false
    → contains_any set (take n s) ≡ false
unfolding contains_any
contains_any-take set zero s e = refl
contains_any-take set (suc n) [] e = refl
contains_any-take set (suc n) (c ∷ s) e = ground (arith, contains_any-take set n s)

-- Cutting a safe port to the size of the field leaves it safe.
pub safe_strncpy-IsSafe :
    (port : Bytes) → IsSafe port → IsSafe (safe_strncpy config_string_len port)
safe_strncpy-IsSafe port h = record {
  device = starts_with-take (codes "/dev/") 63 port (omega arith) h.device;
  no_traversal = contains-take (codes "..") 63 port h.no_traversal;
  no_metacharacter = contains_any-take metacharacters 63 port h.no_metacharacter;
}

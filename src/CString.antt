-- ===== src/CString.antt =====
-- The functions of the C library that the program calls on text, over the bytes of a string without
-- its terminating NUL.
pub mod Decimal
pub mod Search
pub mod Joined
pub mod Occurs
pub mod Convert
use Prim.Native.Char.{code}
use Prim.Native.String.{String}
use quectel_rm520n_thermal.Base.{
  ℕ, zero, suc, ◌+◌, ◌-◌, ◌*◌, ◌/◌, ◌%◌, ℤ, pos, negsuc, neg, Bool, true, false, ◌&&◌, ◌||◌, ◌==◌,
  leb, if◌then◌else◌, Option, none, some, List, [], ◌∷◌, ◌++◌,
}

abbrev pub Bytes : Type 0
Bytes = List ℕ

-- The bytes of a literal, which is ASCII.
abbrev pub codes : String → Bytes
codes String.[] = []
codes (String.◌∷◌ c s) = code c ∷ codes s

-- `isspace` and `isdigit` in the C locale.
unfoldable pub isspace : ℕ → Bool
isspace c = c == b' ' || leb 9 c && leb c 13

unfoldable pub isdigit : ℕ → Bool
isdigit c = leb b'0' c && leb c b'9'

-- `strcmp(a, b) == 0`
unfoldable pub strcmp_eq : Bytes → Bytes → Bool
strcmp_eq [] [] = true
strcmp_eq (a ∷ s) (b ∷ t) = a == b && strcmp_eq s t
strcmp_eq _ _ = false

-- `strncmp(s, prefix, strlen(prefix)) == 0`
unfoldable pub starts_with : Bytes → Bytes → Bool
starts_with [] s = true
starts_with (p ∷ ps) [] = false
starts_with (p ∷ ps) (c ∷ s) = p == c && starts_with ps s

-- `strstr`: the bytes before the first match, in reverse behind `before`, and the text from it on.
unfoldable pub strstr : Bytes → Bytes → Bytes → Option (Bytes × Bytes)
unfolding starts_with
strstr needle before [] = if starts_with needle [] then some (before, []) else none
strstr needle before (c ∷ s) =
    if starts_with needle (c ∷ s) then some (before, c ∷ s) else strstr needle (c ∷ before) s

-- `strstr(text, needle) != NULL`
unfoldable pub contains : Bytes → Bytes → Bool
unfolding strstr
contains needle text = elim (strstr needle [] text) [ none ↦ false | some _ ↦ true ]

-- The digits at the front as a number behind `n`, and what follows them.
unfoldable pub scan : ℕ → Bytes → ℕ × Bytes
unfolding isdigit
scan n [] = (n, [])
scan n (c ∷ s) = let more = scan (n * 10 + (c - b'0')) s in if isdigit c then more else (n, c ∷ s)

unfoldable pub skip_spaces : Bytes → Bytes
unfolding isspace
skip_spaces [] = []
skip_spaces (c ∷ s) = let more = skip_spaces s in if isspace c then more else c ∷ s

-- What `strtol` leaves: `endptr` at the start, or the number, whether `errno` is ERANGE, and the text
-- at `endptr`.
pub data Converted : Type 0 where
  unconverted : Converted
  converted : ℤ → Bool → Bytes → Converted

-- A `long` goes up to `long_max`, and down to one less than its negation.
abbrev pub clamp : ℕ → Bool → ℕ × Bytes → Converted
clamp long_max true (n, rest) =
    if leb n (long_max + 1)
    then converted (neg n) false rest
    else converted (neg (long_max + 1)) true rest
clamp long_max false (n, rest) =
    if leb n long_max then converted (pos n) false rest else converted (pos long_max) true rest

unfoldable pub strtol_digits : ℕ → Bool → Bytes → Converted
unfolding isdigit scan
strtol_digits long_max minus [] = unconverted
strtol_digits long_max minus (c ∷ s) =
    if isdigit c then clamp long_max minus (scan 0 (c ∷ s)) else unconverted

unfoldable pub strtol_signed : ℕ → Bytes → Converted
unfolding strtol_digits
strtol_signed long_max [] = unconverted
strtol_signed long_max (c ∷ s) =
    if c == b'-'
    then strtol_digits long_max true s
    else if c == b'+'
    then strtol_digits long_max false s
    else strtol_digits long_max false (c ∷ s)

-- `strtol(s, &endptr, 10)`
unfoldable pub strtol : ℕ → Bytes → Converted
unfolding strtol_signed skip_spaces
strtol long_max s = strtol_signed long_max (skip_spaces s)

-- The loop that writes the digits of `n` in front of `out`; `n` rounds are enough.
unfoldable pub digits : ℕ → ℕ → Bytes → Bytes
digits zero n out = out
digits (suc fuel) n out =
    let rest = digits fuel (n / 10) ((b'0' + n % 10) ∷ out) in if n == 0 then out else rest

unfoldable pub decimal : ℕ → Bytes → Bytes
unfolding digits
decimal n rest = if n == 0 then b'0' ∷ rest else digits n n rest

-- "%d" in front of `rest`
unfoldable pub print_int : ℤ → Bytes → Bytes
unfolding decimal
print_int (pos n) rest = decimal n rest
print_int (negsuc n) rest = b'-' ∷ decimal (suc n) rest

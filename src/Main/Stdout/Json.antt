-- ===== src/Main/Stdout/Json.antt =====
-- A reader of JSON objects whose members are strings without escapes, and what it makes of the texts
-- of src/main.c.
use quectel_rm520n_thermal.Base.{
  ℕ, zero, suc, ◌+◌, ◌/◌, ◌%◌, leb, ◌==◌, ◌||◌, ◌&&◌, not, ◌≡◌, refl, ap, ◌∙◌, sym, Bool, true,
  false, Bool-cases, inl, inr, if◌then◌else◌, Option, none, some, ℤ, pos, negsuc, List, [], ◌∷◌,
  ◌++◌, append_assoc, append-nil, All, arith,
}
use quectel_rm520n_thermal.CString.{Bytes, codes, digits, decimal, print_int}
use quectel_rm520n_thermal.Main.Watch.{max_failures}
use quectel_rm520n_thermal.Main.Stdout.{json_text, failure_text}

-- Where the reader is: in front of the object, of its first key, of another key; in a key, behind it,
-- in front of a value, in it, behind it, and behind the object.
pub data Mode : Type 0 where
  outside first_key next_key : Mode
  in_key : Bytes → Mode
  colon : Bytes → Mode
  value : Bytes → Mode
  in_value : Bytes → Bytes → Mode
  behind_value behind : Mode

abbrev pub Members : Type 0
Members = List (Bytes × Bytes)

pub record Reader : Type 0 where
  pub mode : Mode
  pub members : Members

-- A byte of a string that stands for itself.
abbrev pub is_plain : ℕ → Bool
is_plain c = leb 32 c && not (c == b'"') && not (c == b'\\')

abbrev pub is_blank : ℕ → Bool
is_blank c = c == b' ' || c == b'\n' || c == b'\t' || c == b'\r'

-- In front of something that begins with that byte.
abbrev pub expect : ℕ → Mode → Reader → ℕ → Option Reader
expect sign mode r c =
    if c == sign then some (record r { mode = mode }) else if is_blank c then some r else none

abbrev pub step_in : Mode → Reader → ℕ → Option Reader
step_in outside r c = expect b'{' first_key r c
step_in first_key r c =
    if c == b'}' then some (record r { mode = behind }) else expect b'"' (in_key []) r c
step_in next_key r c = expect b'"' (in_key []) r c
step_in (in_key key) r c =
    if c == b'"'
    then some (record r { mode = colon key })
    else if is_plain c
    then some (record r { mode = in_key (key ++ c ∷ []) })
    else none
step_in (colon key) r c = expect b':' (value key) r c
step_in (value key) r c = expect b'"' (in_value key []) r c
step_in (in_value key text) r c =
    if c == b'"'
    then some (record { mode = behind_value; members = r.members ++ (key, text) ∷ [] })
    else if is_plain c
    then some (record r { mode = in_value key (text ++ c ∷ []) })
    else none
step_in behind_value r c =
    if c == b'}' then some (record r { mode = behind }) else expect b',' next_key r c
step_in behind r c = if is_blank c then some r else none

abbrev pub and_then : (Reader → Option Reader) → Option Reader → Option Reader
and_then rest none = none
and_then rest (some r) = rest r

unfoldable pub read_bytes : Bytes → Reader → Option Reader
read_bytes [] r = some r
read_bytes (c ∷ s) r = and_then (read_bytes s) (step_in r.mode r c)

abbrev pub finish : Option Reader → Option Members
finish none = none
finish (some r) = elim r.mode [ behind ↦ some r.members | _ ↦ none ]

-- The members of the one object that the text is.
unfoldable pub read_object : Bytes → Option Members
unfolding read_bytes
read_object text = finish (read_bytes text (record { mode = outside; members = [] }))

abbrev pub IsPlain : ℕ → Type 0
IsPlain c = is_plain c ≡ true

step_value :
    (key sofar : Bytes) (r : Reader) (c : ℕ)
    → IsPlain c
    → step_in (in_value key sofar) r c ≡ some (record r { mode = in_value key (sofar ++ c ∷ []) })
step_value key sofar r c h = ground arith

-- A plain text is the value that it is.
read_value :
    (key text sofar rest : Bytes) (ms : Members)
    → All IsPlain text
    → read_bytes (text ++ b'"' ∷ rest) (record { mode = in_value key sofar; members = ms })
      ≡ read_bytes rest (record { mode = behind_value; members = ms ++ (key, sofar ++ text) ∷ [] })
unfolding read_bytes
read_value key [] sofar rest ms h =
    ap
      (λ (t : Bytes).
        read_bytes rest (record { mode = behind_value; members = ms ++ (key, t) ∷ [] }))
      (sym (append-nil sofar))
read_value key (c ∷ text) sofar rest ms (h, hs) =
    ap (and_then (read_bytes (text ++ b'"' ∷ rest)))
      (step_value key sofar (record { mode = in_value key sofar; members = ms }) c h)
    ∙ read_value key text (sofar ++ c ∷ []) rest ms hs
    ∙ ap
        (λ (t : Bytes).
          read_bytes rest (record { mode = behind_value; members = ms ++ (key, t) ∷ [] }))
        (append_assoc sofar (c ∷ []) text)

digit-IsPlain : (n : ℕ) → IsPlain (b'0' + n % 10)
digit-IsPlain n = ground arith

digits-IsPlain : (fuel n : ℕ) (out : Bytes) → All IsPlain out → All IsPlain (digits fuel n out)
unfolding digits
digits-IsPlain zero n out h = h
digits-IsPlain (suc fuel) n out h = elim (Bool-cases (n == 0)) [
  | inl z ↦ rw z h
  | inr nz ↦ rw nz (digits-IsPlain fuel (n / 10) _ (digit-IsPlain n, h))
]

pub decimal-IsPlain : (n : ℕ) → All IsPlain (decimal n [])
unfolding decimal
decimal-IsPlain n = elim (Bool-cases (n == 0)) [
  | inl z ↦ rw z (refl, tt)
  | inr nz ↦ rw nz (digits-IsPlain n n [] tt)
]

pub print_int-IsPlain : (v : ℤ) → All IsPlain (print_int v [])
unfolding print_int
print_int-IsPlain (pos n) = decimal-IsPlain n
print_int-IsPlain (negsuc n) = (refl, decimal-IsPlain (suc n))

-- The members of a reading.
abbrev pub members_of : Bytes → Bool → ℕ → Members
members_of temp_str ok now =
    (codes "temperature", temp_str)
    ∷ (codes "status", if ok then codes "ok" else codes "error")
    ∷ (codes "timestamp", decimal now [])
    ∷ []

-- A reading whose text is plain is printed as a JSON object with its three members.
pub read_object-json_text :
    (temp_str : Bytes) (ok : Bool) (now : ℕ)
    → All IsPlain temp_str
    → read_object (json_text temp_str ok now) ≡ some (members_of temp_str ok now)
unfolding read_object json_text read_bytes
read_object-json_text temp_str true now h = ap finish (
    read_value (codes "temperature") temp_str [] _ [] h
    ∙ read_value (codes "timestamp") (decimal now []) [] _ _ (decimal-IsPlain now))
read_object-json_text temp_str false now h = ap finish (
    read_value (codes "temperature") temp_str [] _ [] h
    ∙ read_value (codes "timestamp") (decimal now []) [] _ _ (decimal-IsPlain now))

-- The members of the end of a watch.
abbrev pub members_of_failure : ℕ → Members
members_of_failure now =
    (codes "error", codes "serial_failure")
    ∷ (codes "message", decimal max_failures (codes " consecutive serial failures"))
    ∷ (codes "timestamp", decimal now [])
    ∷ []

-- The end of a watch is printed as a JSON object.
pub read_object-failure_text :
    (now : ℕ) → read_object (failure_text now) ≡ some (members_of_failure now)
unfolding read_object failure_text read_bytes decimal digits
read_object-failure_text now =
    ap finish (read_value (codes "timestamp") (decimal now []) [] _ _ (decimal-IsPlain now))

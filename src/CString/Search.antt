-- ===== src/CString/Search.antt =====
-- `strstr` on text that is cut up by a delimiter.
use quectel_rm520n_thermal.Base.{
  ℕ, ◌≡◌, refl, true, false, ◌==◌, ◌↔◌, [], ◌∷◌, ◌++◌, none, some, arith, All, All-append,
}
use quectel_rm520n_thermal.CString.{Bytes, strcmp_eq, starts_with, strstr}

-- The byte does not occur.
abbrev pub Lacks : ℕ → Bytes → Type 0
Lacks c = All (λ x. (c == x) ≡ false)

pub Lacks-append : (c : ℕ) (a b : Bytes) → Lacks c a → Lacks c b → Lacks c (a ++ b)
Lacks-append c a b h k = All-append (λ x. (c == x) ≡ false) a b h k

-- A text in reverse, in front of another.
abbrev pub reverse_onto : Bytes → Bytes → Bytes
reverse_onto [] before = before
reverse_onto (c ∷ s) before = reverse_onto s (c ∷ before)

pub strcmp_eq_iff : (a b : Bytes) → (strcmp_eq a b ≡ true) ↔ (a ≡ b)
unfolding strcmp_eq
strcmp_eq_iff (x ∷ a) (y ∷ b) = ground (arith, strcmp_eq_iff a b)
strcmp_eq_iff _ _ = ground arith

-- A needle is not found in text that lacks its first byte.
pub strstr_skip :
    (q : ℕ) (needle chunk before rest : Bytes)
    → Lacks q chunk
    → strstr (q ∷ needle) before (chunk ++ rest)
      ≡ strstr (q ∷ needle) (reverse_onto chunk before) rest
unfolding strstr
strstr_skip q needle [] before rest h = refl
strstr_skip q needle (c ∷ chunk) before rest h =
    rw h.0 (strstr_skip q needle chunk (c ∷ before) rest h.1)

-- A delimited name matches a delimited word exactly if it is that word.
pub starts_with-strcmp_eq :
    (q : ℕ) (name word rest : Bytes)
    → Lacks q name
    → Lacks q word
    → starts_with (name ++ q ∷ []) (word ++ q ∷ rest) ≡ strcmp_eq name word
unfolding starts_with strcmp_eq
starts_with-strcmp_eq q [] [] rest h k = ground arith
starts_with-strcmp_eq q [] (c ∷ word) rest h k = rw k.0
starts_with-strcmp_eq q (n ∷ name) [] rest h k = ground arith
starts_with-strcmp_eq q (n ∷ name) (c ∷ word) rest h k =
    rw (starts_with-strcmp_eq q name word rest h.1 k.1)

-- A delimiter whose word is not the name is passed over.
pub strstr_other :
    (q : ℕ) (name word before rest : Bytes)
    → Lacks q name
    → Lacks q word
    → strcmp_eq name word ≡ false
    → strstr (q ∷ (name ++ q ∷ [])) before (q ∷ (word ++ q ∷ rest))
      ≡ strstr (q ∷ (name ++ q ∷ [])) (q ∷ before) (word ++ q ∷ rest)
unfolding strstr
strstr_other q name word before rest h k ne =
    rw (starts_with-strcmp_eq q name word rest h k, ne) (ground arith)

pub strstr_found :
    (q : ℕ) (name before rest : Bytes)
    → Lacks q name
    → strstr (q ∷ (name ++ q ∷ [])) before (q ∷ (name ++ q ∷ rest))
      ≡ some (before, q ∷ (name ++ q ∷ rest))
unfolding strstr
strstr_found q name before rest h =
    rw (starts_with-strcmp_eq q name name rest h h, (strcmp_eq_iff name name).1 refl) (ground arith)

-- The text does not begin with that byte.
abbrev pub NotHead : ℕ → Bytes → Type 0
NotHead c [] = Unit
NotHead c (d ∷ s) = (c == d) ≡ false

-- A delimiter is passed over where what follows does not begin as the name does.
pub strstr_pass :
    (q c : ℕ) (needle before s : Bytes)
    → NotHead c s
    → strstr (q ∷ c ∷ needle) before (q ∷ s) ≡ strstr (q ∷ c ∷ needle) (q ∷ before) s
unfolding strstr
strstr_pass q c needle before [] h = ground arith
strstr_pass q c needle before (d ∷ s) h = rw h (ground arith)

-- A needle is not in a text that lacks its first byte.
pub strstr-none :
    (q : ℕ) (needle before s : Bytes) → Lacks q s → strstr (q ∷ needle) before s ≡ none
unfolding strstr
strstr-none q needle before [] h = refl
strstr-none q needle before (c ∷ s) h = rw h.0 (strstr-none q needle (c ∷ before) s h.1)

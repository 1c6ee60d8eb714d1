-- ===== src/CString/Occurs.antt =====
-- What `strstr` finds, as texts in front of it and behind it.
use quectel_rm520n_thermal.Base.{
  ℕ, ◌≡◌, ◌≢◌, ◌⊎◌, refl, ap, true, false, ◌↔◌, [], ◌∷◌, ◌++◌, none, arith, Bool, Bool-cases, inl,
  inr, ◌∙◌, sym, append_assoc, append-nil,
}
use quectel_rm520n_thermal.CString.{Bytes, starts_with, strstr, contains}
use quectel_rm520n_thermal.CString.Search.{Lacks}

-- The needle stands in the text.
abbrev pub Occurs : Bytes → Bytes → Type 0
Occurs needle text = (before : Bytes) × (rest : Bytes) × (text ≡ before ++ (needle ++ rest))

starts_with_split : (p s : Bytes) → starts_with p s ≡ true → (rest : Bytes) × (s ≡ p ++ rest)
unfolding starts_with
starts_with_split [] s e = (s, refl)
starts_with_split (p ∷ ps) [] e = cc
starts_with_split (p ∷ ps) (c ∷ s) e =
    let (rest, same) = starts_with_split ps s (ground arith) in (rest, ground arith)

starts_with-prefix : (p rest : Bytes) → starts_with p (p ++ rest) ≡ true
unfolding starts_with
starts_with-prefix [] rest = refl
starts_with-prefix (c ∷ p) rest = ground (arith, starts_with-prefix p rest)

strstr_here :
    (needle before s : Bytes) → starts_with needle s ≡ true → strstr needle before s ≢ none
unfolding strstr
strstr_here needle before [] e = rw e (λ n. cc)
strstr_here needle before (c ∷ s) e = rw e (λ n. cc)

strstr-Occurs : (needle before s : Bytes) → strstr needle before s ≢ none → Occurs needle s
unfolding strstr
strstr-Occurs needle before [] h = elim (Bool-cases (starts_with needle [])) [
  | inl e ↦ let (rest, same) = starts_with_split needle [] e in ([], rest, same)
  | inr e ↦ absurd (h (rw e refl))
]
strstr-Occurs needle before (c ∷ s) h = elim (Bool-cases (starts_with needle (c ∷ s))) [
  | inl e ↦ let (rest, same) = starts_with_split needle (c ∷ s) e in ([], rest, same)
  | inr e ↦
      let (b, rest, same) = strstr-Occurs needle (c ∷ before) s (rw e at h) in
      (c ∷ b, rest, ap (◌∷◌ c) same)
]

Occurs-strstr : (needle before a rest : Bytes) → strstr needle before (a ++ (needle ++ rest)) ≢ none
unfolding strstr
Occurs-strstr needle before [] rest =
    strstr_here needle before (needle ++ rest) (starts_with-prefix needle rest)
Occurs-strstr needle before (c ∷ a) rest =
    elim (Bool-cases (starts_with needle (c ∷ (a ++ (needle ++ rest))))) [
      | inl e ↦ rw e (λ n. cc)
      | inr e ↦ rw e (Occurs-strstr needle (c ∷ before) a rest)
    ]

pub contains-Occurs : (needle text : Bytes) → (contains needle text ≡ true) ↔ Occurs needle text
unfolding contains
contains-Occurs needle text = (
  λ e. strstr-Occurs needle [] text (λ n. ground arith),
  λ (a, rest, same). rw same (let h = Occurs-strstr needle [] a rest in ground arith),
)

-- What a text contains, it contains with more behind it.
pub contains-append :
    (needle text more : Bytes) → contains needle text ≡ true → contains needle (text ++ more) ≡ true
contains-append needle text more e =
    let (a, rest, same) = (contains-Occurs needle text).0 e in
    (contains-Occurs needle (text ++ more)).1 (
      a,
      rest ++ more,
      ap (λ (s : Bytes). s ++ more) same
          ∙ append_assoc a (needle ++ rest) more
          ∙ ap (◌++◌ a) (append_assoc needle rest more),
    )

ends_alike :
    (c : ℕ) (needle a text : Bytes) → Lacks c needle → needle ≢ [] → text ++ c ∷ [] ≢ a ++ needle
ends_alike c [] [] text l n e = n refl
ends_alike c (d ∷ needle) [] [] (l, ls) n e = ground arith
ends_alike c (d ∷ needle) [] (x ∷ text) (l, ls) n e =
    ends_alike_tail c needle text ls (ground arith)
  where
    ends_alike_tail : (c : ℕ) (needle text : Bytes) → Lacks c needle → text ++ c ∷ [] ≡ needle → ⊥
    ends_alike_tail c [] [] l e = cc
    ends_alike_tail c [] (x ∷ text) l e = cc
    ends_alike_tail c (d ∷ needle) [] (l, ls) e = ground arith
    ends_alike_tail c (d ∷ needle) (x ∷ text) (l, ls) e =
        ends_alike_tail c needle text ls (ground arith)
ends_alike c needle (y ∷ a) [] l n e = nonempty a needle n (ground arith)
  where
    nonempty : (a needle : Bytes) → needle ≢ [] → [] ≡ a ++ needle → ⊥
    nonempty [] needle n e = n (sym e)
    nonempty (x ∷ a) needle n e = cc
ends_alike c needle (y ∷ a) (x ∷ text) l n e = ends_alike c needle a text l n (ground arith)

-- One text is the beginning of the other.
abbrev pub Prefix : Bytes → Bytes → Type 0
Prefix s whole = (rest : Bytes) × (s ++ rest ≡ whole)

-- Of two beginnings of one text one is a beginning of the other.
pub beginnings :
    (a b c d : Bytes) → a ++ b ≡ c ++ d → Prefix a c ⊎ ((e : Bytes) × (a ≡ c ++ e) × (e ++ b ≡ d))
beginnings [] b c d e = inl (c, refl)
beginnings (x ∷ a) b [] d e = inr (x ∷ a, refl, e)
beginnings (x ∷ a) b (y ∷ c) d e = elim (beginnings a b c d (ground arith)) [
  | inl (rest, same) ↦ inl (rest, ground arith)
  | inr (rest, same, tail) ↦ inr (rest, ground arith, tail)
]

pub append_cancel : (t a b : Bytes) → t ++ a ≡ t ++ b → a ≡ b
append_cancel [] a b e = e
append_cancel (x ∷ t) a b e = append_cancel t a b (ground arith)

single : (c x : ℕ) (more rest : Bytes) → c ∷ [] ≡ x ∷ (more ++ rest) → x ∷ more ≡ c ∷ []
single c x [] rest e = ground arith
single c x (y ∷ more) rest e = cc

Occurs-snoc :
    (c : ℕ) (needle text : Bytes)
    → Lacks c needle
    → needle ≢ []
    → Occurs needle (text ++ c ∷ [])
    → Occurs needle text
Occurs-snoc c needle text l n (a, rest, e) =
    elim (beginnings text (c ∷ []) (a ++ needle) rest (e ∙ sym (append_assoc a needle rest))) [
      | inl ([], same) ↦
          (a, [], sym (append-nil text) ∙ same ∙ ap (◌++◌ a) (sym (append-nil needle)))
      | inl (x ∷ more, same) ↦
          let left : c ∷ [] ≡ x ∷ (more ++ rest) =
            append_cancel text (c ∷ []) (x ∷ (more ++ rest)) (
              e
              ∙ sym (append_assoc a needle rest)
              ∙ ap (λ (s : Bytes). s ++ rest) (sym same)
              ∙ append_assoc text (x ∷ more) rest) in
          absurd (
            ends_alike c needle a text l n
              (ap (◌++◌ text) (sym (single c x more rest left)) ∙ same))
      | inr (more, same, ends) ↦ (a, more, same ∙ append_assoc a needle more)
    ]

same_truth : (a b : Bool) → (a ≡ true → b ≡ true) → (b ≡ true → a ≡ true) → a ≡ b
same_truth true b h k = sym (h refl)
same_truth false true h k = k refl
same_truth false false h k = refl

-- A byte that the needle lacks makes no difference at the end of the text.
pub contains-snoc :
    (c : ℕ) (needle text : Bytes)
    → Lacks c needle
    → needle ≢ []
    → contains needle (text ++ c ∷ []) ≡ contains needle text
contains-snoc c needle text l n =
    same_truth _ _
      (λ e.
        (contains-Occurs needle text).1
          (Occurs-snoc c needle text l n ((contains-Occurs needle (text ++ c ∷ [])).0 e)))
      (contains-append needle text (c ∷ []))

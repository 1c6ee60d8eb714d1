-- ===== src/CString/Joined.antt =====
-- What `strstr` finds in texts that are joined.
use quectel_rm520n_thermal.Base.{
  ℕ, ◌≡◌, ◌⊎◌, ap, subst, true, false, [], ◌∷◌, ◌++◌, arith, Bool-cases, inl, inr, ◌∙◌, sym,
  append_assoc, append-nil,
}
use quectel_rm520n_thermal.CString.{Bytes, contains}
use quectel_rm520n_thermal.CString.Search.{Lacks, strstr-none}
use quectel_rm520n_thermal.CString.Occurs.{Occurs, contains-Occurs, beginnings, append_cancel}

-- What a text contains, it contains with more in front of it.
pub contains-prepend :
    (needle more text : Bytes) → contains needle text ≡ true → contains needle (more ++ text) ≡ true
contains-prepend needle more text e =
    let (a, rest, same) = (contains-Occurs needle text).0 e in
    (contains-Occurs needle (more ++ text)).1
      (more ++ a, rest, ap (◌++◌ more) same ∙ sym (append_assoc more a (needle ++ rest)))

-- A text without the first byte of the needle does not contain it.
pub Lacks-contains :
    (c : ℕ) (needle text : Bytes) → Lacks c text → contains (c ∷ needle) text ≡ false
unfolding contains
Lacks-contains c needle text l = let none_found = strstr-none c needle [] text l in ground arith

Lacks-none : (c : ℕ) (a b : Bytes) → Lacks c (a ++ c ∷ b) → ⊥
Lacks-none c [] b (h, hs) = ground arith
Lacks-none c (x ∷ a) b (h, hs) = Lacks-none c a b hs

module _ (c d : ℕ) (needle : Bytes) (lacks : Lacks c (d ∷ needle)) where
  in_second : (b r rest : Bytes) → c ∷ b ≡ r ++ (d ∷ (needle ++ rest)) → Occurs (d ∷ needle) b
  in_second b [] rest e = absurd (ground arith)
  in_second b (y ∷ r) rest e = (r, rest, ground arith)

  in_first : (b x e rest : Bytes) → e ++ c ∷ b ≡ d ∷ (needle ++ rest) → Occurs (d ∷ needle) (x ++ e)
  in_first b x e rest same = elim (beginnings e (c ∷ b) (d ∷ needle) rest same) [
    | inl ([], whole) ↦
        (x, [], ap (◌++◌ x) (sym (append-nil e) ∙ whole ∙ sym (append-nil (d ∷ needle))))
    | inl (y ∷ r, whole) ↦
        let tail : c ∷ b ≡ y ∷ (r ++ rest) =
          append_cancel e (c ∷ b) (y ∷ (r ++ rest))
            (same ∙ ap (λ (s : Bytes). s ++ rest) (sym whole) ∙ append_assoc e (y ∷ r) rest) in
        let here : y ≡ c = ground arith in
        absurd (
          Lacks-none c e r (
            subst (λ (z : ℕ). Lacks c (e ++ z ∷ r)) here
              (subst (λ (s : Bytes). Lacks c s) (sym whole) lacks)))
    | inr (more, whole, tail) ↦ (x, more, ap (◌++◌ x) whole)
  ]

  split_at :
      (a b : Bytes)
      → Occurs (d ∷ needle) (a ++ c ∷ b)
      → Occurs (d ∷ needle) a ⊎ Occurs (d ∷ needle) b
  split_at a b (x, rest, e) = elim (beginnings a (c ∷ b) x (d ∷ (needle ++ rest)) e) [
    | inl (r, whole) ↦ inr (
        in_second b r rest (
          append_cancel a (c ∷ b) (r ++ (d ∷ (needle ++ rest))) (
            e
            ∙ ap (λ (s : Bytes). s ++ (d ∷ (needle ++ rest))) (sym whole)
            ∙ append_assoc a r (d ∷ (needle ++ rest)))))
    | inr (more, whole, tail) ↦
        inl (subst (Occurs (d ∷ needle)) (sym whole) (in_first b x more rest tail))
  ]

  -- A needle without a byte is in neither of two texts that the byte joins, or in one of them.
  pub contains-joined :
      (a b : Bytes)
      → contains (d ∷ needle) a ≡ false
      → contains (d ∷ needle) b ≡ false
      → contains (d ∷ needle) (a ++ c ∷ b) ≡ false
  contains-joined a b h k = elim (Bool-cases (contains (d ∷ needle) (a ++ c ∷ b))) [
    | inr none ↦ none
    | inl some ↦ absurd (elim (split_at a b ((contains-Occurs (d ∷ needle) (a ++ c ∷ b)).0 some)) [
      | inl first ↦ let e = (contains-Occurs (d ∷ needle) a).1 first in cc
      | inr second ↦ let e = (contains-Occurs (d ∷ needle) b).1 second in cc
    ])
  ]

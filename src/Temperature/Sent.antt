-- ===== src/Temperature/Sent.antt =====
-- How src/serial.c and src/temperature.c take an answer of the modem's form that is not yet whole.
use quectel_rm520n_thermal.Base.{
  ℕ, ◌≡◌, ◌⊎◌, inl, inr, refl, subst, ap, ◌∙◌, sym, ◌==◌, true, false, none, List, [], ◌∷◌, ◌++◌,
  arith, append-nil,
}
use quectel_rm520n_thermal.CString.{Bytes, codes, isdigit, strstr, starts_with, contains}
use quectel_rm520n_thermal.CString.Search.{Lacks, NotHead, reverse_onto, strstr_skip, strstr_pass}
use quectel_rm520n_thermal.CString.Occurs.{Prefix, beginnings, contains-Occurs, contains-snoc}
use quectel_rm520n_thermal.Serial.{c_string, is_final}
use quectel_rm520n_thermal.Serial.Arrival.{IsHead, is_final-append}
use quectel_rm520n_thermal.Temperature.{well_formed}
use quectel_rm520n_thermal.Temperature.Response.{
  Reading, print_readings, print_answer, print_response,
}
use quectel_rm520n_thermal.Temperature.Pieces.{
  AreLines, line, line-append, line-Lacks, print_answer-append, print_answer-Lacks, c_string-whole,
}

-- A search for a newline and a byte behind it that no line begins with.
module _ (c : ℕ) (needle : Bytes) (no_plus : (c == b'+') ≡ false) (no_cr : (c == b'\r') ≡ false)
    (no_lf : (c == b'\n') ≡ false) where
  readings-NotHead :
      (rs : List Reading) (last : Bytes) → NotHead c last → NotHead c (print_readings rs last)
  readings-NotHead [] last h = h
  readings-NotHead (r ∷ rs) last h = no_plus

  -- The search is in `last` when it has been in the readings.
  abbrev Passes : ℕ → Type 0
  Passes nl =
      (rest before : Bytes)
      → NotHead c rest
      → (b : Bytes) × (strstr (nl ∷ c ∷ needle) before (b'\r' ∷ b'\n' ∷ rest)
          ≡ strstr (nl ∷ c ∷ needle) b rest)

  lf-Passes : Passes b'\n'
  lf-Passes rest before h = (
    _,
    strstr_skip b'\n' (c ∷ needle) (b'\r' ∷ []) before (b'\n' ∷ rest) (refl, tt)
        ∙ strstr_pass b'\n' c needle _ rest h,
  )

  cr-Passes : Passes b'\r'
  cr-Passes rest before h = (
    _,
    strstr_pass b'\r' c needle before (b'\n' ∷ rest) no_lf
        ∙ strstr_skip b'\r' (c ∷ needle) (b'\n' ∷ []) _ rest (refl, tt),
  )

  passed_readings :
      (nl : ℕ) (rs : List Reading) (last before : Bytes)
      → Passes nl
      → ((r : Reading) → Lacks nl r.name → Lacks nl (line r))
      → ((r : Reading) (rs : List Reading) → AreLines (r ∷ rs) → Lacks nl r.name)
      → AreLines rs
      → NotHead c last
      → (b : Bytes) × (strstr (nl ∷ c ∷ needle) before (print_readings rs last)
          ≡ strstr (nl ∷ c ∷ needle) b last)
  passed_readings nl [] last before passes lacks named h l = (before, refl)
  passed_readings nl (r ∷ rs) last before passes lacks named h l =
      let rest = print_readings rs last in
      let (b, skipped) = passes rest (reverse_onto (line r) before) (readings-NotHead rs last l) in
      let (b', same) = passed_readings nl rs last b passes lacks named h.1 l in
      (
        b',
        ap (strstr (nl ∷ c ∷ needle) before) (line-append r rest)
            ∙ strstr_skip nl (c ∷ needle) (line r) before _ (lacks r (named r rs h))
            ∙ skipped
            ∙ same,
      )

  passed_answer :
      (nl : ℕ) (rs : List Reading) (last : Bytes)
      → Passes nl
      → ((r : Reading) → Lacks nl r.name → Lacks nl (line r))
      → ((r : Reading) (rs : List Reading) → AreLines (r ∷ rs) → Lacks nl r.name)
      → AreLines rs
      → NotHead c last
      → (b : Bytes) × (strstr (nl ∷ c ∷ needle) [] (print_answer rs last)
          ≡ strstr (nl ∷ c ∷ needle) b last)
  passed_answer nl rs last passes lacks named h l =
      let (b, skipped) = passes (print_readings rs last) [] (readings-NotHead rs last l) in
      let (b', same) = passed_readings nl rs last b passes lacks named h l in (b', skipped ∙ same)

  lf_answer :
      (rs : List Reading) (last : Bytes)
      → AreLines rs
      → NotHead c last
      → (b : Bytes) × (strstr (b'\n' ∷ c ∷ needle) [] (print_answer rs last)
          ≡ strstr (b'\n' ∷ c ∷ needle) b last)
  lf_answer rs last =
      passed_answer b'\n' rs last lf-Passes
        (λ r h. line-Lacks b'\n' r (unfold isdigit in (refl, refl)) (ground arith) refl refl h)
        (λ r rs h. h.0.1)

  cr_answer :
      (rs : List Reading) (last : Bytes)
      → AreLines rs
      → NotHead c last
      → (b : Bytes) × (strstr (b'\r' ∷ c ∷ needle) [] (print_answer rs last)
          ≡ strstr (b'\r' ∷ c ∷ needle) b last)
  cr_answer rs last =
      passed_answer b'\r' rs last cr-Passes
        (λ r h. line-Lacks b'\r' r (unfold isdigit in (refl, refl)) (ground arith) refl refl h)
        (λ r rs h. h.0.0)

not_contained : (needle text : Bytes) → strstr needle [] text ≡ none → contains needle text ≡ false
unfolding contains
not_contained needle text e = ground arith

-- The end of an answer in front of the last byte of its final result code.
abbrev almost : Bytes
almost = codes "\r\nO"

not_yet_text :
    (rs : List Reading) → AreLines rs → c_string (print_answer rs almost) ≡ print_answer rs almost
not_yet_text rs h = c_string-whole _ (print_answer-Lacks rs almost h (ground arith))

not_yet_final : (rs : List Reading) → AreLines rs → is_final (print_answer rs almost) ≡ false
unfolding is_final strstr starts_with
not_yet_final rs h =
    let text = print_answer rs almost in
    let (b1, e1) = lf_answer b'O' (codes "K") refl refl refl rs almost h refl in
    let (b2, e2) = cr_answer b'O' (codes "K") refl refl refl rs almost h refl in
    let (b3, e3) = lf_answer b'E' (codes "RROR") refl refl refl rs almost h refl in
    let (b4, e4) = cr_answer b'E' (codes "RROR") refl refl refl rs almost h refl in
    rw
      (
        not_yet_text rs h,
        not_contained (codes "\nOK") text (e1 ∙ refl),
        not_contained (codes "\rOK") text (e2 ∙ refl),
        not_contained (codes "\nERROR") text (e3 ∙ refl),
        not_contained (codes "\rERROR") text (e4 ∙ refl),
      )
      refl

final_text : (rs : List Reading) → AreLines rs → is_final (print_answer rs (codes "\r\nOK")) ≡ true
unfolding is_final
final_text rs h =
    let text = print_answer rs (codes "\r\nOK") in
    let whole = c_string-whole text (print_answer-Lacks rs (codes "\r\nOK") h (ground arith)) in
    let has =
      (contains-Occurs (codes "\nOK") text).1
        (print_answer rs (codes "\r"), [], print_answer-append rs (codes "\r") (codes "\nOK")) in
    rw (whole, has) refl

-- An answer is read up to its OK at least.
pub answer-IsHead : (rs : List Reading) → AreLines rs → IsHead (print_answer rs (codes "\r\nOK"))
answer-IsHead rs h = (final_text rs h, first)
  where
    shorter : (s e : Bytes) → s ++ e ≡ print_answer rs almost → is_final s ≡ true → ⊥
    shorter s e same final =
        let no = not_yet_final rs h in
        let yes = subst (λ (t : Bytes). is_final t ≡ true) same (is_final-append s e final) in cc

    last_only : (e rest : Bytes) → e ++ rest ≡ codes "K" → (e ≡ []) ⊎ (rest ≡ [])
    last_only [] rest same = inl refl
    last_only (x ∷ []) [] same = inr refl
    last_only (x ∷ []) (y ∷ rest) same = ground arith
    last_only (x ∷ y ∷ e) rest same = ground arith

    first :
        (s rest : Bytes)
        → s ++ rest ≡ print_answer rs (codes "\r\nOK")
        → is_final s ≡ true
        → rest ≡ []
    first s rest same final =
        elim (beginnings s rest (print_answer rs almost) (codes "K")
          (same ∙ print_answer-append rs almost (codes "K"))) [
            | inl (e, before) ↦ absurd (shorter s e before final)
            | inr (e, is, ends) ↦ elim (last_only e rest ends) [
              | inl nothing ↦ absurd (
                  shorter s []
                    (append-nil s ∙ is ∙ (rw nothing (append-nil (print_answer rs almost)))) final)
              | inr none_left ↦ none_left
            ]
          ]

well_formed-snoc :
    (c : ℕ) (text : Bytes)
    → Lacks c (codes "+QTEMP:")
    → Lacks c (codes "ERROR")
    → Lacks c (codes "OK")
    → Lacks c (codes "modem")
    → well_formed (text ++ c ∷ []) ≡ well_formed text
unfolding well_formed
well_formed-snoc c text h1 h2 h3 h4 =
    rw
      (
        contains-snoc c (codes "+QTEMP:") text h1 (λ e. cc),
        contains-snoc c (codes "ERROR") text h2 (λ e. cc),
        contains-snoc c (codes "OK") text h3 (λ e. cc),
        contains-snoc c (codes "modem") text h4 (λ e. cc),
      )
      refl

newline_cases :
    (s rest : Bytes) → s ++ rest ≡ codes "\r\n" → (s ≡ []) ⊎ (s ≡ codes "\r") ⊎ (s ≡ codes "\r\n")
newline_cases [] rest e = inl refl
newline_cases (c ∷ []) rest e = inr (inl (ground arith))
newline_cases (c ∷ d ∷ []) rest e = inr (inr (ground arith))
newline_cases (c ∷ d ∷ x ∷ s) rest e = absurd (ground arith)

-- How much of the newline behind the OK is there makes no difference.
pub well_formed_piece :
    (rs : List Reading) (s : Bytes)
    → Prefix s (codes "\r\n")
    → well_formed (print_response rs) ≡ true
    → well_formed (print_answer rs (codes "\r\nOK" ++ s)) ≡ true
well_formed_piece rs s (rest, e) w =
    let head = print_answer rs (codes "\r\nOK") in
    let one =
      well_formed-snoc b'\r' head (ground arith) (ground arith) (ground arith) (ground arith) in
    let two =
      well_formed-snoc b'\n' (head ++ codes "\r") (ground arith) (ground arith) (ground arith)
        (ground arith) in
    let split : print_response rs ≡ (head ++ codes "\r") ++ codes "\n" =
      print_answer-append rs (codes "\r\nOK\r") (codes "\n")
      ∙ ap (λ (t : Bytes). t ++ codes "\n")
          (print_answer-append rs (codes "\r\nOK") (codes "\r")) in
    let short : well_formed (head ++ codes "\r") ≡ true =
      sym two ∙ ap well_formed (sym split) ∙ w in
    elim (newline_cases s rest e) [
      | inl none_there ↦ rw none_there (sym one ∙ short)
      | inr (inl half) ↦
          rw half (ap well_formed (print_answer-append rs (codes "\r\nOK") (codes "\r")) ∙ short)
      | inr (inr all) ↦ rw all w
    ]

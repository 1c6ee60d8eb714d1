-- ===== src/Temperature/Pieces.antt =====
-- The modem's answer in its form, and its beginnings, as src/serial.c reads them.
use quectel_rm520n_thermal.Base.{
  ℕ, ◌≡◌, refl, subst, ap, ◌∙◌, sym, ◌==◌, false, List, [], ◌∷◌, ◌++◌, arith, append_assoc,
}
use quectel_rm520n_thermal.CString.{Bytes, codes, isdigit, print_int}
use quectel_rm520n_thermal.CString.Search.{Lacks, Lacks-append}
use quectel_rm520n_thermal.CString.Decimal.{NoNumeral, print_int-append, print_int-Lacks}
use quectel_rm520n_thermal.Serial.{c_string}
use quectel_rm520n_thermal.Temperature.Response.{
  Reading, q, print_reading, print_readings, print_answer,
}

-- Names that end no line and no string.
abbrev pub AreLines : List Reading → Type 0
AreLines [] = Unit
AreLines (r ∷ rs) = (Lacks b'\r' r.name × Lacks b'\n' r.name × Lacks 0 r.name) × AreLines rs

-- A reading without the end of its line.
abbrev pub line : Reading → Bytes
line r = codes "+QTEMP:" ++ (q ∷ (r.name ++ (q ∷ b',' ∷ q ∷ (print_int r.value [] ++ q ∷ []))))

pub line-append :
    (r : Reading) (rest : Bytes) → print_reading r rest ≡ line r ++ (b'\r' ∷ b'\n' ∷ rest)
line-append r rest =
    ap (λ (s : Bytes). codes "+QTEMP:" ++ (q ∷ s))
      (ap (λ (s : Bytes). r.name ++ (q ∷ b',' ∷ q ∷ s))
          (print_int-append r.value (q ∷ b'\r' ∷ b'\n' ∷ rest)
            ∙ sym (append_assoc (print_int r.value []) (q ∷ []) (b'\r' ∷ b'\n' ∷ rest)))
        ∙ sym (
            append_assoc r.name (q ∷ b',' ∷ q ∷ (print_int r.value [] ++ q ∷ []))
              (b'\r' ∷ b'\n' ∷ rest)))

pub line-Lacks :
    (c : ℕ) (r : Reading)
    → NoNumeral c
    → Lacks c (codes "+QTEMP:")
    → (c == q) ≡ false
    → (c == b',') ≡ false
    → Lacks c r.name
    → Lacks c (line r)
line-Lacks c r n h quote comma name =
    let number : Lacks c (print_int r.value [] ++ q ∷ []) =
      Lacks-append c (print_int r.value []) _ (print_int-Lacks c r.value n) (quote, tt) in
    let named : Lacks c (r.name ++ (q ∷ b',' ∷ q ∷ (print_int r.value [] ++ q ∷ []))) =
      Lacks-append c r.name _ name (quote, (comma, (quote, number))) in
    let behind : Lacks c (q ∷ (r.name ++ (q ∷ b',' ∷ q ∷ (print_int r.value [] ++ q ∷ [])))) =
      (quote, named) in
    Lacks-append c (codes "+QTEMP:")
      (q ∷ (r.name ++ (q ∷ b',' ∷ q ∷ (print_int r.value [] ++ q ∷ [])))) h behind

-- A text in front of the readings' end, and more behind it.
print_readings-append :
    (rs : List Reading) (a b : Bytes) → print_readings rs (a ++ b) ≡ print_readings rs a ++ b
print_readings-append [] a b = refl
print_readings-append (r ∷ rs) a b =
    line-append r (print_readings rs (a ++ b))
    ∙ ap (λ (s : Bytes). line r ++ (b'\r' ∷ b'\n' ∷ s)) (print_readings-append rs a b)
    ∙ sym (append_assoc (line r) (b'\r' ∷ b'\n' ∷ print_readings rs a) b)
    ∙ ap (λ (s : Bytes). s ++ b) (sym (line-append r (print_readings rs a)))

pub print_answer-append :
    (rs : List Reading) (a b : Bytes) → print_answer rs (a ++ b) ≡ print_answer rs a ++ b
print_answer-append rs a b = ap (λ (s : Bytes). b'\r' ∷ b'\n' ∷ s) (print_readings-append rs a b)

-- The answer holds no NUL, if its end does not.
pub print_answer-Lacks :
    (rs : List Reading) (last : Bytes) → AreLines rs → Lacks 0 last → Lacks 0 (print_answer rs last)
print_answer-Lacks rs last h l = (refl, (refl, go rs h))
  where
    go : (rs : List Reading) → AreLines rs → Lacks 0 (print_readings rs last)
    go [] h = l
    go (r ∷ rs) ((no_cr, no_lf, no_nul), h) =
        subst (λ (s : Bytes). Lacks 0 s) (sym (line-append r (print_readings rs last)))
          (Lacks-append 0 (line r) _
            (line-Lacks 0 r (unfold isdigit in (refl, refl)) (ground arith) refl refl no_nul)
            (refl, (refl, go rs h)))

pub c_string-whole : (s : Bytes) → Lacks 0 s → c_string s ≡ s
unfolding c_string
c_string-whole [] l = refl
c_string-whole (c ∷ s) (l, ls) = ground (arith, c_string-whole s ls)

-- ===== src/Temperature/Accepted.antt =====
-- Which answers of the modem's form src/temperature.c reads at all, by the names in them.
use quectel_rm520n_thermal.Base.{
  ◌≡◌, refl, sym, subst, true, false, Bool, ◌||◌, List, [], ◌∷◌, ◌++◌, arith, Bool-cases, inl, inr,
}
use quectel_rm520n_thermal.CString.{Bytes, codes, isdigit, starts_with, strstr, contains, print_int}
use quectel_rm520n_thermal.CString.Occurs.{contains-append}
use quectel_rm520n_thermal.CString.Joined.{contains-prepend, contains-joined, Lacks-contains}
use quectel_rm520n_thermal.CString.Decimal.{print_int-append, print_int-Lacks}
use quectel_rm520n_thermal.Temperature.{well_formed}
use quectel_rm520n_thermal.Temperature.Response.{Reading, q, print_readings, print_response}
use quectel_rm520n_thermal.Temperature.Pieces.{line, line-append}

-- One of the names has that text in it.
abbrev pub in_names : Bytes → List Reading → Bool
in_names text [] = false
in_names text (r ∷ rs) = contains text r.name || in_names text rs

-- One of the names has "modem" in it, and none has "ERROR".
pub record AreModems (rs : List Reading) : Type 0 where
  pub modem : in_names (codes "modem") rs ≡ true
  pub error : in_names (codes "ERROR") rs ≡ false

modem_in_readings :
    (rs : List Reading) (last : Bytes)
    → in_names (codes "modem") rs ≡ true
    → contains (codes "modem") (print_readings rs last) ≡ true
modem_in_readings [] last h = cc
modem_in_readings (r ∷ rs) last h = elim (Bool-cases (contains (codes "modem") r.name)) [
  | inl here ↦
      contains-prepend (codes "modem") (codes "+QTEMP:\"") _
        (contains-append (codes "modem") r.name _ here)
  | inr later ↦
      let behind = modem_in_readings rs last (ground arith) in
      subst (λ (s : Bytes). contains (codes "modem") s ≡ true)
        (sym (line-append r (print_readings rs last)))
        (contains-prepend (codes "modem") (line r) _
          (contains-prepend (codes "modem") (codes "\r\n") _ behind))
]

-- The rest of the text behind a quote.
quote_joins :
    (a b : Bytes)
    → contains (codes "ERROR") a ≡ false
    → contains (codes "ERROR") b ≡ false
    → contains (codes "ERROR") (a ++ q ∷ b) ≡ false
quote_joins a b h k =
    contains-joined q b'E' (codes "RROR") (refl, (refl, (refl, (refl, (refl, tt))))) a b h k

newline_joins :
    (b : Bytes)
    → contains (codes "ERROR") b ≡ false
    → contains (codes "ERROR") (b'\r' ∷ b'\n' ∷ b) ≡ false
newline_joins b h =
    contains-joined b'\n' b'E' (codes "RROR") (refl, (refl, (refl, (refl, (refl, tt)))))
      (codes "\r") b (Lacks-contains b'E' (codes "RROR") (codes "\r") (refl, tt)) h

error_not_in_number : (r : Reading) → contains (codes "ERROR") (print_int r.value []) ≡ false
unfolding isdigit
error_not_in_number r =
    Lacks-contains b'E' (codes "RROR") _ (print_int-Lacks b'E' r.value (refl, refl))

error_not_in_start : contains (codes "ERROR") (codes "+QTEMP:") ≡ false
unfolding contains strstr starts_with
error_not_in_start = refl

error_not_in_readings :
    (rs : List Reading) (last : Bytes)
    → in_names (codes "ERROR") rs ≡ false
    → contains (codes "ERROR") last ≡ false
    → contains (codes "ERROR") (print_readings rs last) ≡ false
error_not_in_readings [] last h k = k
error_not_in_readings (r ∷ rs) last h k =
    let behind = newline_joins _ (error_not_in_readings rs last (ground arith) k) in
    let number = quote_joins (print_int r.value []) _ (error_not_in_number r) behind in
    let printed =
      subst (λ (s : Bytes). contains (codes "ERROR") s ≡ false)
        (sym (print_int-append r.value (q ∷ b'\r' ∷ b'\n' ∷ print_readings rs last))) number in
    let comma =
      quote_joins (codes ",") _ (Lacks-contains b'E' (codes "RROR") (codes ",") (refl, tt))
        printed in
    let named = quote_joins r.name _ (ground arith) comma in
    quote_joins (codes "+QTEMP:") _ error_not_in_start named

error_not_in_end : contains (codes "ERROR") (codes "\r\nOK\r\n") ≡ false
unfolding contains strstr starts_with
error_not_in_end = refl

start_in_first : contains (codes "+QTEMP:") (codes "\r\n+QTEMP:") ≡ true
unfolding contains strstr starts_with
start_in_first = refl

start_in_response :
    (rs : List Reading)
    → in_names (codes "modem") rs ≡ true
    → contains (codes "+QTEMP:") (print_response rs) ≡ true
start_in_response [] h = cc
start_in_response (r ∷ rs) h =
    contains-append (codes "+QTEMP:") (codes "\r\n+QTEMP:") _ start_in_first

-- An answer is taken if one of its names has "modem" in it and none has "ERROR".
pub AreModems-well_formed :
    (rs : List Reading) → AreModems rs → well_formed (print_response rs) ≡ true
unfolding well_formed
AreModems-well_formed rs h =
    let start = start_in_response rs h.modem in
    let error =
      newline_joins (print_readings rs (codes "\r\nOK\r\n"))
        (error_not_in_readings rs (codes "\r\nOK\r\n") h.error error_not_in_end) in
    let modem =
      contains-prepend (codes "modem") (codes "\r\n") (print_readings rs (codes "\r\nOK\r\n"))
        (modem_in_readings rs (codes "\r\nOK\r\n") h.modem) in
    rw (start, error, modem) (ground arith)

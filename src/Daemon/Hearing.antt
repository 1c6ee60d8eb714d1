-- ===== src/Daemon/Hearing.antt =====
-- What src/daemon.c hears of an answer that the modem sends in pieces.
use quectel_rm520n_thermal.Base.{
  ℕ, ◌<◌, ◌≤◌, ◌≡◌, refl, ap as cong, ◌∙◌, sym, ℤ, true, some, List, [], ◌∷◌, ◌++◌, length, arith,
  All, subst,
}
use quectel_rm520n_thermal.CString.{Bytes, codes}
use quectel_rm520n_thermal.CString.Search.{Lacks, Lacks-append}
use quectel_rm520n_thermal.CString.Occurs.{Prefix}
use quectel_rm520n_thermal.Serial.{
  Exchange, answered, c_string, validate_serial_params, read_modem_response, send_at_command,
}
use quectel_rm520n_thermal.Serial.Reading.{arrivals}
use quectel_rm520n_thermal.Serial.Arrival.{IsTimely, read_modem_response-IsWhole}
use quectel_rm520n_thermal.Temperature.{Triple, extract_temp_values}
use quectel_rm520n_thermal.Temperature.Accepted.{AreModems, AreModems-well_formed}
use quectel_rm520n_thermal.Temperature.Bounds.{Valid}
use quectel_rm520n_thermal.Temperature.Response.{
  Reading, q, print_readings, print_answer, print_response, lookup, IsName, AreReadings,
}
use quectel_rm520n_thermal.Temperature.RoundTrip.{given, extract_temp_values-print_answer}
use quectel_rm520n_thermal.Temperature.Pieces.{
  AreLines, print_answer-append, print_answer-Lacks, c_string-whole,
}
use quectel_rm520n_thermal.Temperature.Sent.{answer-IsHead, well_formed_piece}
use quectel_rm520n_thermal.Daemon.State.{max_response}
use quectel_rm520n_thermal.Daemon.Loop.{at_command, all_wanted}

-- The command is written, and the answer comes in time, in whatever pieces.
pub record Sends (x : Exchange) (rs : List Reading) : Type 0 where
  pub command_written : x.command_written ≡ true
  pub end_written : x.end_written ≡ true
  pub timely : All (IsTimely x.start_time) x.passes
  pub all : arrivals x.passes ≡ print_response rs
  pub fits : length (print_response rs) < max_response

-- The answer has the three temperatures under the three names. `modems` is what the program asks of
-- the names, though they can be configured; the others keep the names apart from the rest of a line.
pub record Names (rs : List Reading) (p : Triple Bytes) (modem ap pa : ℤ) : Type 0 where
  pub modems : AreModems rs
  pub readings : AreReadings rs
  pub lines : AreLines rs
  pub modem_name : IsName p.modem
  pub ap_name : IsName p.ap
  pub pa_name : IsName p.pa
  pub modem_is : lookup p.modem rs ≡ some modem
  pub ap_is : lookup p.ap rs ≡ some ap
  pub pa_is : lookup p.pa rs ≡ some pa
  pub modem_valid : Valid modem
  pub ap_valid : Valid ap
  pub pa_valid : Valid pa

newline_Lacks : (c : ℕ) (s : Bytes) → Prefix s (codes "\r\n") → Lacks c (codes "\r\n") → Lacks c s
newline_Lacks c [] p l = tt
newline_Lacks c (x ∷ []) (rest, e) l = ground arith
newline_Lacks c (x ∷ y ∷ []) (rest, e) l = ground arith
newline_Lacks c (x ∷ y ∷ z ∷ s) (rest, e) l = absurd (ground arith)

written :
    (x : Exchange)
    → x.command_written ≡ true
    → x.end_written ≡ true
    → send_at_command true (some at_command) true max_response x
      ≡ read_modem_response true true max_response x.start_time x.passes
unfolding send_at_command validate_serial_params
written x command end = rw (command, end) refl

-- What stands in the buffer behind the command.
received :
    (x : Exchange) (rs : List Reading)
    → Sends x rs
    → AreLines rs
    → (s : Bytes) × Prefix s (codes "\r\n")
      × (send_at_command true (some at_command) true max_response x
          ≡ answered (print_answer rs (codes "\r\nOK" ++ s)))
received x rs sends lines =
    let split = print_answer-append rs (codes "\r\nOK") (codes "\r\n") in
    let (s, reads, part) =
      read_modem_response-IsWhole max_response x.start_time (print_answer rs (codes "\r\nOK"))
        (codes "\r\n") x.passes (unfold validate_serial_params in refl) sends.timely
        (subst (λ (t : Bytes). length t < max_response) split sends.fits) (sends.all ∙ split)
        (answer-IsHead rs lines) in
    (
      s,
      part,
      written x sends.command_written sends.end_written
          ∙ reads
          ∙ cong answered (sym (print_answer-append rs (codes "\r\nOK") s)),
    )

-- An answer that comes in pieces gives its temperatures.
pub heard :
    (long_max : ℕ) (x : Exchange) (rs : List Reading) (p : Triple Bytes) {modem ap pa : ℤ}
    → 2147483647 ≤ long_max
    → Sends x rs
    → Names rs p modem ap pa
    → (codes : Bytes) × (send_at_command true (some at_command) true max_response x
        ≡ answered (b'\r' ∷ codes))
      × (extract_temp_values long_max (some (c_string (b'\r' ∷ codes))) all_wanted (given p)
          ≡ (true, record { modem = some modem; ap = some ap; pa = some pa }))
heard m x rs p wide sends n =
    let (s, part, reads) = received x rs sends n.lines in
    let last = codes "\r\nOK" ++ s in
    let no_nul =
      Lacks-append 0 (codes "\r\nOK") s (ground arith) (newline_Lacks 0 s part (ground arith)) in
    let no_quote =
      Lacks-append q (codes "\r\nOK") s (ground arith) (newline_Lacks q s part (ground arith)) in
    let whole = c_string-whole (print_answer rs last) (print_answer-Lacks rs last n.lines no_nul) in
    let extracts =
      extract_temp_values-print_answer m wide rs p last no_quote
        (well_formed_piece rs s part (AreModems-well_formed rs n.modems)) n.readings n.modem_name
        n.ap_name n.pa_name n.modem_is n.ap_is n.pa_is n.modem_valid n.ap_valid n.pa_valid in
    (
      b'\n' ∷ print_readings rs last,
      reads,
      cong (λ (text : Bytes). extract_temp_values m (some text) all_wanted (given p)) whole
          ∙ extracts,
    )

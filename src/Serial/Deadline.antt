-- ===== src/Serial/Deadline.antt =====
-- The five seconds after which src/serial.c stops reading.
use quectel_rm520n_thermal.Base.{
  ℕ, ◌-◌, ◌≢◌, inl, inr, ltb, Bool, Bool-cases, List, [], ◌∷◌, length, arith,
}
use quectel_rm520n_thermal.CString.{Bytes}
use quectel_rm520n_thermal.Serial.{
  Pass, pending, Passed, again, done, error, pass, behind, validate_serial_params, read_loop,
  read_modem_response,
}
use quectel_rm520n_thermal.Serial.Reading.{TimesOut, Late}

module _ (buflen start_time : ℕ) where
  behind_answers :
      (p : Pass) (ps : List Pass) (x : Passed)
      → ((more : Bytes) → read_loop buflen start_time ps more ≢ pending)
      → behind (read_loop buflen start_time ps) x ≢ pending
  behind_answers p ps (again more) ih = ih more
  behind_answers p ps (done more) ih = λ e. cc
  behind_answers p ps error ih = λ e. cc

  Late-pass :
      (p : Pass) (ps : List Pass) (buf : Bytes)
      → Late start_time p
      → behind (read_loop buflen start_time ps) (pass buflen start_time p buf) ≢ pending
  unfolding pass
  Late-pass p ps buf late e = ground arith

  loop_answers :
      (ps : List Pass) (buf : Bytes)
      → TimesOut start_time ps
      → read_loop buflen start_time ps buf ≢ pending
  unfolding read_loop
  loop_answers [] buf late = absurd late
  loop_answers (p ∷ ps) buf late = elim (Bool-cases (ltb (length buf) (buflen - 1))) [
    | inl short ↦ rw short (elim late [
      | inl now ↦ Late-pass p ps buf now
      | inr then_ ↦
          behind_answers p ps (pass buflen start_time p buf) (λ more. loop_answers ps more then_)
    ])
    | inr most ↦ rw most (λ e. cc)
  ]

  -- A read is over when five seconds are, whatever the modem sends.
  pub read_modem_response_ends :
      (has_fd has_buf : Bool) (ps : List Pass)
      → TimesOut start_time ps
      → read_modem_response has_fd has_buf buflen start_time ps ≢ pending
  unfolding read_modem_response
  read_modem_response_ends has_fd has_buf ps late =
      elim (Bool-cases (validate_serial_params has_fd has_buf buflen)) [
        | inl valid ↦ rw valid (loop_answers ps [] late)
        | inr invalid ↦ rw invalid (λ e. cc)
      ]

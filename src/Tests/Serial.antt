-- ===== src/Tests/Serial.antt =====
-- src/serial.c at a concrete exchange.
use quectel_rm520n_thermal.Base.{
  ◌<◌, ◌≡◌, ◌≢◌, refl, inl, inr, true, false, List, [], ◌∷◌, arith, length,
}
use quectel_rm520n_thermal.CString.{Bytes, codes, strstr, starts_with, contains}
use quectel_rm520n_thermal.CString.Occurs.{Prefix}
use quectel_rm520n_thermal.Serial.{
  Pass, idle, readable, got, answered, pending, read_modem_response,
}
use quectel_rm520n_thermal.Serial.Reading.{Ended, arrivals, read_modem_response-IsResponse}
use quectel_rm520n_thermal.Serial.Deadline.{read_modem_response_ends}

abbrev quiet : Pass
quiet = record { shutdown = false; now = 101; waited = idle }

-- The modem's answer in two parts.
abbrev first_part : Pass
first_part = record { shutdown = false; now = 101; waited = readable (got (codes "+QTEMP:")) }

abbrev last_part : Pass
last_part = record { shutdown = false; now = 102; waited = readable (got (codes "\r\nOK\r\n")) }

abbrev pub passes : List Pass
passes = quiet ∷ first_part ∷ last_part ∷ []

abbrev answer : Bytes
answer = codes "+QTEMP:\r\nOK\r\n"

reads_answer : read_modem_response true true 1024 100 passes ≡ answered answer
unfolding read_modem_response strstr contains starts_with
reads_answer = refl

read_modem_response-IsResponse_example :
    (length answer < 1024) × Prefix answer (arrivals passes) × Ended 1024 100 passes answer
read_modem_response-IsResponse_example =
    read_modem_response-IsResponse 1024 100 true true passes answer reads_answer

-- Nothing comes, and the clock goes on.
abbrev silence : List Pass
silence = quiet ∷ record { shutdown = false; now = 105; waited = idle } ∷ []

read_modem_response_ends_example : read_modem_response true true 1024 100 silence ≢ pending
read_modem_response_ends_example =
    read_modem_response_ends 1024 100 true true silence (inr (inl (omega arith)))

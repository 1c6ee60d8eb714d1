-- ===== src/Temperature/RoundTrip.antt =====
-- A whole answer of the modem, through src/temperature.c to the value for the kernel.
use quectel_rm520n_thermal.Base.{ℕ, ◌≤◌, ◌≡◌, refl, ℤ, true, Option, some, List}
use quectel_rm520n_thermal.CString.{Bytes, codes}
use quectel_rm520n_thermal.CString.Search.{Lacks}
use quectel_rm520n_thermal.Temperature.{
  Triple, extract_slot, extract_slots, extract_temp_values, well_formed,
}
use quectel_rm520n_thermal.Temperature.Accepted.{AreModems, AreModems-well_formed}
use quectel_rm520n_thermal.Temperature.Bounds.{Valid, all_wanted, extract_temp_values_iff}
use quectel_rm520n_thermal.Temperature.Response.{
  Reading, q, print_answer, print_response, lookup, IsName, AreReadings, extract-print_answer,
}

-- The three prefixes, none of them NULL.
abbrev pub given : Triple Bytes → Triple (Option Bytes)
given p = record { modem = some p.modem; ap = some p.ap; pa = some p.pa }

module _ (long_max : ℕ) (wide : 2147483647 ≤ long_max) (rs : List Reading) (p : Triple Bytes) where
  slot :
      (n last : Bytes) {v : ℤ}
      → AreReadings rs
      → IsName n
      → Lacks q last
      → lookup n rs ≡ some v
      → extract_slot long_max (print_answer rs last) true (some n) ≡ some v
  unfolding extract_slot
  slot n last r h l e = rw (extract-print_answer long_max wide n rs last h r l, e)

  slots :
      (text : Bytes) {modem ap pa : ℤ}
      → extract_slot long_max text true (some p.modem) ≡ some modem
      → extract_slot long_max text true (some p.ap) ≡ some ap
      → extract_slot long_max text true (some p.pa) ≡ some pa
      → extract_slots long_max text all_wanted (given p)
        ≡ record { modem = some modem; ap = some ap; pa = some pa }
  unfolding extract_slots
  slots text em ea ep = cc

  -- An answer with any end that has no quote.
  pub extract_temp_values-print_answer :
      (last : Bytes) {modem ap pa : ℤ}
      → Lacks q last
      → well_formed (print_answer rs last) ≡ true
      → AreReadings rs
      → IsName p.modem
      → IsName p.ap
      → IsName p.pa
      → lookup p.modem rs ≡ some modem
      → lookup p.ap rs ≡ some ap
      → lookup p.pa rs ≡ some pa
      → Valid modem
      → Valid ap
      → Valid pa
      → extract_temp_values long_max (some (print_answer rs last)) all_wanted (given p)
        ≡ (true, record { modem = some modem; ap = some ap; pa = some pa })
  extract_temp_values-print_answer last {modem} {ap} {pa} l w r nm na np em ea ep vm va vp =
      let e =
        slots (print_answer rs last) (slot p.modem last r nm l em) (slot p.ap last r na l ea)
          (slot p.pa last r np l ep) in
      rw e at (
        (extract_temp_values_iff long_max (print_answer rs last) all_wanted (given p)).1
          (w, rw e vm, rw e va, rw e vp))

  -- An answer of the documented form that holds valid temperatures under the three configured names
  -- is read as these temperatures, if one of its names has "modem" in it, none has "ERROR", no name
  -- has a quote, each value of the answer is a C `int`, and the configured names have 1 to 125 bytes
  -- and begin with no digit, minus sign, comma or carriage return.
  pub extract_temp_values-print_response :
      {modem ap pa : ℤ}
      → AreModems rs
      → AreReadings rs
      → IsName p.modem
      → IsName p.ap
      → IsName p.pa
      → lookup p.modem rs ≡ some modem
      → lookup p.ap rs ≡ some ap
      → lookup p.pa rs ≡ some pa
      → Valid modem
      → Valid ap
      → Valid pa
      → extract_temp_values long_max (some (print_response rs)) all_wanted (given p)
        ≡ (true, record { modem = some modem; ap = some ap; pa = some pa })
  extract_temp_values-print_response w r nm na np em ea ep vm va vp =
      extract_temp_values-print_answer (codes "\r\nOK\r\n")
        (refl, (refl, (refl, (refl, (refl, (refl, tt)))))) (AreModems-well_formed rs w) r nm na np
        em ea ep vm va vp

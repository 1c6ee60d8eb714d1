-- ===== src/Tests/Temperature.antt =====
-- src/temperature.c at concrete responses.
use quectel_rm520n_thermal.Base.{
  ℕ, ◌≡◌, refl, ℤ, pos, neg, true, Option, some, List, [], ◌∷◌, arith,
}
use quectel_rm520n_thermal.CString.{
  Bytes, codes, strcmp_eq, isspace, isdigit, starts_with, strstr, contains,
}
use quectel_rm520n_thermal.Temperature.{Triple, extract_temp_values}
use quectel_rm520n_thermal.Temperature.Accepted.{AreModems}
use quectel_rm520n_thermal.Temperature.Bounds.{all_wanted}
use quectel_rm520n_thermal.Temperature.Response.{Reading, print_response, IsName, AreReadings}
use quectel_rm520n_thermal.Temperature.RoundTrip.{given, extract_temp_values-print_response}

abbrev long_max : ℕ
long_max = 9223372036854775807

abbrev readings : List Reading
readings =
    record { name = codes "modem-lte-sub6-pa1"; value = pos 41 }
    ∷ record { name = codes "modem-ambient-usr"; value = pos 39 }
    ∷ record { name = codes "cpuss-0-usr"; value = neg 3 }
    ∷ []

abbrev names : Triple Bytes
names = record {
  modem = codes "modem-ambient-usr";
  ap = codes "cpuss-0-usr";
  pa = codes "modem-lte-sub6-pa1";
}

readings-AreReadings : AreReadings readings
readings-AreReadings = ground arith

readings-AreModems : AreModems readings
unfolding contains strstr starts_with
readings-AreModems = record { modem = refl; error = refl }

modem-IsName : IsName (codes "modem-ambient-usr")
modem-IsName = unfold isdigit isspace in ground arith

ap-IsName : IsName (codes "cpuss-0-usr")
ap-IsName = unfold isdigit isspace in ground arith

pa-IsName : IsName (codes "modem-lte-sub6-pa1")
pa-IsName = unfold isdigit isspace in ground arith

abbrev temperatures : Triple (Option ℤ)
temperatures = record { modem = some (pos 39); ap = some (neg 3); pa = some (pos 41) }

-- The whole answer, read.
extract_temp_values-print_response_example :
    extract_temp_values long_max (some (print_response readings)) all_wanted (given names)
    ≡ (true, temperatures)
extract_temp_values-print_response_example =
    extract_temp_values-print_response long_max (omega arith) readings names readings-AreModems
      readings-AreReadings modem-IsName ap-IsName pa-IsName (unfold strcmp_eq in refl)
      (unfold strcmp_eq in refl) (unfold strcmp_eq in refl) (omega arith) (omega arith)
      (omega arith)

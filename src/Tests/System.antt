-- ===== src/Tests/System.antt =====
-- src/system.c and the daemon's thermal zones at concrete directories.
use quectel_rm520n_thermal.Base.{
  ℕ, ◌≡◌, ◌⊎◌, refl, inl, inr, ℤ, pos, neg, Bool, true, false, none, some, List, [], ◌∷◌,
}
use quectel_rm520n_thermal.CString.{Bytes, codes, strcmp_eq, starts_with, strstr, contains, strtol}
use quectel_rm520n_thermal.System.{
  dev_name_of, is_exact, is_partial, Entry, Cache, extract_hwmon_number, scan_entries,
}
use quectel_rm520n_thermal.System.Search.{best_device, scan-best_device}
use quectel_rm520n_thermal.Zone.{
  Zone, ZoneCache, find_modem_thermal_zone, is_system_zone, is_modem_zone,
}
use quectel_rm520n_thermal.Daemon.Survey.{
  survey, zone_found, unknown_zone, verdict, survey_zones, thermal_lines,
}
use quectel_rm520n_thermal.Daemon.Survey.Foretold.{IsForetold, survey-IsForetold}
use quectel_rm520n_thermal.Zone.Safety.{IsListed, find_modem_thermal_zone-IsListed}

abbrev long_max : ℕ
long_max = 9223372036854775807

abbrev entries : List Entry
entries =
    record { d_name = codes "."; name_file = none; has_input = false }
    ∷ record {
      d_name = codes "hwmon1";
      name_file = some (codes "quectel_rm520n_other\n");
      has_input = true;
    }
    ∷ record {
      d_name = codes "hwmon4";
      name_file = some (codes "quectel_rm520n_thermal\n");
      has_input = true;
    }
    ∷ []

abbrev cold : Cache
cold = record { device_num = neg 1; valid = false }

abbrev all_readable : ℤ → Bool
all_readable _ = true

scan-best_device_example : scan_entries long_max entries (neg 1) ≡ best_device long_max entries
scan-best_device_example = scan-best_device long_max entries

-- The exact name wins over the earlier entry.
finds_exact : scan_entries long_max entries (neg 1) ≡ pos 4
unfolding scan_entries strtol strstr starts_with strcmp_eq extract_hwmon_number is_exact is_partial
finds_exact = refl

-- A directory that is named "hwmon" alone passes for number 0.
empty_number : extract_hwmon_number long_max (some (codes "hwmon")) ≡ pos 0
unfolding extract_hwmon_number strtol starts_with
empty_number = refl

abbrev zones : List Zone
zones =
    record { d_name = codes "thermal_zone0"; type_file = some (codes "cpu-thermal\n") }
    ∷ record { d_name = codes "thermal_zone1"; type_file = some (codes "modem-thermal\n") }
    ∷ []

abbrev no_path : ZoneCache
no_path = record { path = []; cached = false }

abbrev modem_path : ZoneCache
modem_path = record {
  path = codes "/sys/devices/virtual/thermal/thermal_zone1/temp";
  cached = true;
}

abbrev accessible : Bytes → Bool
accessible _ = true

finds_modem : find_modem_thermal_zone accessible (some zones) no_path ≡ (true, modem_path)
unfolding find_modem_thermal_zone strcmp_eq starts_with strstr contains
finds_modem = refl

find_modem_thermal_zone-IsListed_example :
    ((modem_path ≡ no_path) × (accessible modem_path.path ≡ true)) ⊎ IsListed zones modem_path.path
find_modem_thermal_zone-IsListed_example =
    find_modem_thermal_zone-IsListed accessible zones no_path modem_path finds_modem

modem-IsListed : IsListed zones modem_path.path
unfolding starts_with is_modem_zone is_system_zone strcmp_eq strstr contains dev_name_of
modem-IsListed = inr (inl (refl, refl, refl, refl, codes "modem-thermal", refl, refl, refl))

survey-IsForetold_example :
    IsForetold modem_path.path
      (survey (some (codes "quectel_rm520n_temp 16384 0\n")) (some (codes "soc" ∷ [])) (some zones))
survey-IsForetold_example =
    survey-IsForetold accessible zones no_path modem_path
      (some (codes "quectel_rm520n_temp 16384 0\n")) (some (codes "soc" ∷ [])) refl finds_modem

abbrev unlucky : List Zone
unlucky =
    record { d_name = codes "thermal_zone3"; type_file = some (codes "rm520n-thermal\n") } ∷ []

-- A zone of which the log says that it will not be written.
denied :
    survey none none (some unlucky)
    ≡ zone_found (codes "thermal_zone3") (codes "rm520n-thermal") unknown_zone ∷ []
unfolding survey survey_zones thermal_lines strcmp_eq starts_with strstr contains verdict
denied = refl

-- Yet it is the one that the daemon writes to.
written : (find_modem_thermal_zone accessible (some unlucky) no_path).0 ≡ true
unfolding find_modem_thermal_zone strcmp_eq starts_with strstr contains
written = refl

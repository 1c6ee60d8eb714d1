-- ===== src/Daemon/Survey.antt =====
-- src/daemon.c: what `daemon_mode` looks at when it starts, and says of it in the log. The entries of
-- a directory and the content of a file are arguments; what cannot be opened is `none`.
pub mod Foretold
use quectel_rm520n_thermal.Base.{
  ℕ, ◌-◌, Bool, true, false, not, ◌||◌, if◌then◌else◌, Option, none, some, List, [], ◌∷◌, ◌++◌,
}
use quectel_rm520n_thermal.CString.{Bytes, codes, starts_with, contains}
use quectel_rm520n_thermal.System.{path_max_len, dev_name_of, fits, fgets_all}
use quectel_rm520n_thermal.Zone.{Zone, in_zone}

-- `MODULE_LINE_LEN`
abbrev pub module_line_len : ℕ
module_line_len = 128

-- What the daemon says of a thermal zone: "System thermal zone (will NOT write modem temperatures
-- here)", "Modem thermal zone (safe for temperature writing)", or "Unknown thermal zone (will NOT
-- write modem temperatures here)".
pub data Verdict : Type 0 where
  system_zone : Verdict
  modem_zone : Verdict
  unknown_zone : Verdict

-- The lines of the log; that of a zone stands with its verdict.
pub data Line : Type 0 where
  module_loaded : Bytes → Line
  platform_device : Bytes → Line
  truncated : Bytes → Line
  zone_found : Bytes → Bytes → Verdict → Line

unfoldable pub module_lines : List Bytes → List Line
unfolding contains
module_lines [] = []
module_lines (line ∷ lines) =
    let rest = module_lines lines in
    if contains (codes "quectel_rm520n_temp") line then module_loaded line ∷ rest else rest

unfoldable pub survey_modules : Option Bytes → List Line
unfolding module_lines fgets_all
survey_modules none = []
survey_modules (some content) =
    module_lines (fgets_all module_line_len (module_line_len - 1) content)

unfoldable pub device_lines : List Bytes → List Line
unfolding contains
device_lines [] = []
device_lines (d_name ∷ names) =
    let rest = device_lines names in
    if contains (codes "quectel_rm520n") d_name then platform_device d_name ∷ rest else rest

unfoldable pub survey_devices : Option (List Bytes) → List Line
unfolding device_lines
survey_devices none = []
survey_devices (some names) = device_lines names

unfoldable pub verdict : Bytes → Verdict
unfolding contains
verdict zone_type =
    if contains (codes "cpu") zone_type
      || contains (codes "gpu") zone_type
      || contains (codes "soc") zone_type
    then system_zone
    else if contains (codes "modem") zone_type || contains (codes "quectel") zone_type
    then modem_zone
    else unknown_zone

-- For a zone whose type was read.
abbrev pub typed_lines : Bytes → Option Bytes → List Line
typed_lines d_name none = []
typed_lines d_name (some zone_type) = zone_found d_name zone_type (verdict zone_type) ∷ []

unfoldable pub zone_lines : Zone → List Line
unfolding starts_with dev_name_of verdict
zone_lines z =
    if not (starts_with (codes "thermal_zone") z.d_name)
    then []
    else if not (fits path_max_len (in_zone z.d_name (codes "/type")))
    then truncated z.d_name ∷ []
    else typed_lines z.d_name (dev_name_of z.type_file)

unfoldable pub thermal_lines : List Zone → List Line
unfolding zone_lines
thermal_lines [] = []
thermal_lines (z ∷ zs) = zone_lines z ++ thermal_lines zs

unfoldable pub survey_zones : Option (List Zone) → List Line
unfolding thermal_lines
survey_zones none = []
survey_zones (some zones) = thermal_lines zones

-- The three scans in their order.
unfoldable pub survey : Option Bytes → Option (List Bytes) → Option (List Zone) → List Line
unfolding survey_modules survey_devices survey_zones
survey modules names zones = survey_modules modules ++ (survey_devices names ++ survey_zones zones)

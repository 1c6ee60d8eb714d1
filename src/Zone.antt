-- ===== src/Zone.antt =====
-- src/daemon.c: `find_modem_thermal_zone`, the thermal zone that the daemon writes to, and its cache.
-- What stands in the file system is an argument; its names and texts hold no NUL.
pub mod Safety
use quectel_rm520n_thermal.Base.{
  ℕ, Bool, true, false, not, ◌&&◌, ◌||◌, if◌then◌else◌, Option, none, some, List, [], ◌∷◌, ◌++◌,
}
use quectel_rm520n_thermal.CString.{Bytes, codes, strcmp_eq, starts_with, contains}
use quectel_rm520n_thermal.System.{path_max_len, device_name_len, dev_name_of, fits}

-- An entry of /sys/devices/virtual/thermal: its name, and the content of its file `type` if that can
-- be opened.
pub record Zone : Type 0 where
  pub d_name : Bytes
  pub type_file : Option Bytes

-- `g_thermal_zone_path` and `g_thermal_zone_cached`
pub record ZoneCache : Type 0 where
  pub path : Bytes
  pub cached : Bool

abbrev pub in_zone : Bytes → Bytes → Bytes
in_zone d_name file = codes "/sys/devices/virtual/thermal/" ++ (d_name ++ file)

unfoldable pub is_system_zone : Bytes → Bool
unfolding contains
is_system_zone zone_type =
    contains (codes "cpu") zone_type
    || contains (codes "gpu") zone_type
    || contains (codes "soc") zone_type
    || contains (codes "board") zone_type

unfoldable pub is_modem_zone : Bytes → Bool
unfolding strcmp_eq
is_modem_zone zone_type =
    strcmp_eq zone_type (codes "quectel_rm520n")
    || strcmp_eq zone_type (codes "modem_thermal")
    || strcmp_eq zone_type (codes "modem-thermal")
    || strcmp_eq zone_type (codes "quectel-thermal")
    || strcmp_eq zone_type (codes "rm520n-thermal")

-- The temperature file of a zone whose type was read, if it is a modem's.
unfoldable pub typed : Bytes → Option Bytes → Option Bytes
unfolding is_system_zone is_modem_zone
typed d_name none = none
typed d_name (some zone_type) =
    if is_system_zone zone_type
    then none
    else if is_modem_zone zone_type && fits path_max_len (in_zone d_name (codes "/temp"))
    then some (in_zone d_name (codes "/temp"))
    else none

-- One entry: the file to write to, unless it is skipped.
unfoldable pub temp_file : Zone → Option Bytes
unfolding starts_with typed dev_name_of
temp_file z =
    if not (starts_with (codes "thermal_zone") z.d_name)
    then none
    else if not (fits path_max_len (in_zone z.d_name (codes "/type")))
    then none
    else typed z.d_name (dev_name_of z.type_file)

abbrev pub or_next : Option Bytes → Option Bytes → Option Bytes
or_next none next = next
or_next (some path) next = some path

-- The loop over the directory.
unfoldable pub scan_zones : List Zone → Option Bytes
unfolding temp_file
scan_zones [] = none
scan_zones (z ∷ zs) = or_next (temp_file z) (scan_zones zs)

abbrev pub found_zone : Option Bytes → ZoneCache → Bool × ZoneCache
found_zone none c = (false, c)
found_zone (some path) c = (true, record { path = path; cached = true })

unfoldable pub scan_thermal : Option (List Zone) → ZoneCache → Bool × ZoneCache
unfolding scan_zones
scan_thermal none c = (false, c)
scan_thermal (some zones) c = found_zone (scan_zones zones) c

-- `path[0] != '\0'`
abbrev pub nonempty : Bytes → Bool
nonempty [] = false
nonempty (c ∷ s) = true

-- `true` for the result 0. `accessible path` is `access(path, W_OK) == 0`.
unfoldable pub find_modem_thermal_zone :
    (Bytes → Bool) → Option (List Zone) → ZoneCache → Bool × ZoneCache
unfolding scan_thermal
find_modem_thermal_zone accessible zones c =
    if c.cached && nonempty c.path
    then (if accessible c.path
        then (true, c)
        else scan_thermal zones (record { path = []; cached = false }))
    else scan_thermal zones c

-- ===== src/Daemon/Publish.antt =====
-- src/daemon.c: where the daemon writes a temperature.
use quectel_rm520n_thermal.Base.{
  ℤ, Bool, true, false, if◌then◌else◌, Option, none, some, List, [], ◌∷◌, ◌++◌,
}
use quectel_rm520n_thermal.CString.{Bytes, codes}
use quectel_rm520n_thermal.Zone.{ZoneCache, find_modem_thermal_zone}
use quectel_rm520n_thermal.Daemon.State.{State, Round, Action, writes}

-- The files that a temperature is written to, besides the thermal zone's.
abbrev pub sysfs_path : Bytes
sysfs_path = codes "/sys/kernel/quectel_rm520n_thermal/temp"

abbrev pub platform_path : Bytes
platform_path = codes "/sys/devices/platform/quectel_rm520n_temp/cur_temp"

abbrev pub sensor_path : Bytes
sensor_path = codes "/sys/devices/platform/soc/soc:quectel-temp-sensor/cur_temp"

unfoldable pub write_to : (Bytes → Bool) → Bytes → ℤ → List Action
write_to opens_file path v = if opens_file path then writes path v ∷ [] else []

unfoldable pub write_hwmon : (Bytes → Bool) → Option Bytes → ℤ → List Action
unfolding write_to
write_hwmon opens_file none v = []
write_hwmon opens_file (some path) v = write_to opens_file path v

-- The thermal zone's file, where the search gave one; a file that cannot be opened clears the cache.
unfoldable pub write_zone : (Bytes → Bool) → Bool × ZoneCache → ℤ → ZoneCache × List Action
unfolding write_to
write_zone opens_file (false, c) v = (c, [])
write_zone opens_file (true, c) v =
    (if opens_file c.path then c else record c { cached = false }, write_to opens_file c.path v)

unfoldable pub publish : Round → Option Bytes → ℤ → State → State × List Action
unfolding write_hwmon write_zone find_modem_thermal_zone
publish r hwmon v s =
    let (zone, zone_writes) =
      write_zone r.opens_file (find_modem_thermal_zone r.accessible r.zones s.zone) v in
    (
      record s { zone = zone },
      write_to r.opens_file sysfs_path v
          ++ (write_hwmon r.opens_file hwmon v
              ++ (write_to r.opens_file platform_path v
                  ++ (write_to r.opens_file sensor_path v ++ zone_writes))),
    )

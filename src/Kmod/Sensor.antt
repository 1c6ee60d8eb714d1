-- ===== src/Kmod/Sensor.antt =====
-- src/kmod/sensor.c: the virtual thermal sensor.
pub mod Laws
pub mod Driver
use quectel_rm520n_thermal.Base.{
  ℕ, ◌+◌, ℤ, ltb_ℤ, ltb, Bool, true, false, ◌||◌, ◌==◌, if◌then◌else◌, Option, none, some, List, [],
  ◌∷◌,
}
use quectel_rm520n_thermal.Kmod.Defs.{
  Bytes, default_temp_default, temp_absolute_min, temp_absolute_max, Errno, einval, enomem, enodev,
  Parsed, parsed, refused, int_line, Kernel, Stored, consumed, rejected, Shown, shown, unreadable,
}

-- `struct quectel_temp_data`; the zone behind `tzd` is seen through the updates that it is told of.
pub record TempData : Type 0 where
  pub cur_temp : ℤ
  pub zone_updates : List ℤ

-- `thermal_zone_device_update`: the thermal framework reads the new temperature.
abbrev thermal_zone_device_update : TempData → TempData
thermal_zone_device_update d = record d { zone_updates = d.cur_temp ∷ d.zone_updates }

-- `none` is a NULL pointer among the arguments.
unfoldable pub quectel_temp_get_temp : Option TempData → Option ℤ
quectel_temp_get_temp none = none
quectel_temp_get_temp (some d) = some d.cur_temp

store_parsed : Parsed → ℕ → TempData → Stored × TempData
store_parsed (refused _) count d = (rejected einval, d)
store_parsed (parsed val) count d =
    if ltb_ℤ val temp_absolute_min
    then (rejected einval, d)
    else if ltb_ℤ temp_absolute_max val
    then (rejected einval, d)
    else (consumed count, thermal_zone_device_update (record d { cur_temp = val }))

module _ (k : Kernel) where
  unfoldable pub cur_temp_show : Bool → TempData → Shown
  cur_temp_show false d = unreadable einval
  cur_temp_show true d = shown (k.scnprintf k.page_size (int_line d.cur_temp))

  unfoldable pub cur_temp_store : Option Bytes → ℕ → TempData → Stored × TempData
  unfolding store_parsed
  cur_temp_store none count d = (rejected einval, d)
  cur_temp_store (some buf) count d =
      if count == 0 || ltb k.page_size count
      then (rejected einval, d)
      else store_parsed (k.kstrtoint buf) count d

  -- Writes one after the other.
  unfoldable pub run : List (Option Bytes × ℕ) → TempData → TempData
  run [] d = d
  run ((buf, count) ∷ ws) d = run ws (cur_temp_store buf count d).1

-- The kernel's answers during a probe: memory, a Device Tree node, and the errors of the two
-- registrations.
pub record Answers : Type 0 where
  pub has_memory : Bool
  pub has_node : Bool
  pub zone_error : Option Errno
  pub file_error : Option Errno

pub data Probed : Type 0 where
  bound : TempData → Probed
  gave_up : Errno → Probed

create_file : Option Errno → TempData → Probed
create_file (some ret) d = gave_up ret
create_file none d = bound d

register_zone : Option Errno → Option Errno → TempData → Probed
unfolding create_file
register_zone (some ret) file_error d = gave_up ret
register_zone none file_error d = create_file file_error d

unfoldable pub quectel_temp_probe : Answers → Probed
unfolding register_zone
quectel_temp_probe a =
    if a.has_memory
    then (if a.has_node
        then register_zone a.zone_error a.file_error
            (record { cur_temp = default_temp_default; zone_updates = [] })
        else gave_up enodev)
    else gave_up enomem

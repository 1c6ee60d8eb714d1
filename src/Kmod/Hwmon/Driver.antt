-- ===== src/Kmod/Hwmon/Driver.antt =====
-- Loading and unloading of src/kmod/hwmon.c: the platform driver, and the fallback device for boards
-- whose Device Tree has no node for it.
use quectel_rm520n_thermal.Base.{
  ◌≡◌, Bool, true, false, not, Option, none, some, arith, if◌then◌else◌,
}
use quectel_rm520n_thermal.Kmod.Defs.{Errno}

-- What stands registered with the kernel.
pub record Registered : Type 0 where
  pub driver : Bool
  pub fallback_device : Bool

abbrev pub nothing : Registered
nothing = record { driver = false; fallback_device = false }

-- What the kernel answers: the errors of the two registrations, and whether the Device Tree has a
-- node for the driver.
pub record Answers : Type 0 where
  pub driver_error : Option Errno
  pub has_node : Bool
  pub device_error : Option Errno

abbrev platform_driver_unregister : Registered → Registered
platform_driver_unregister r = record r { driver = false }

abbrev platform_device_unregister : Registered → Registered
platform_device_unregister r = record r { fallback_device = false }

register_device : Option Errno → Registered → Option Errno × Registered
register_device none r = (none, record r { fallback_device = true })
register_device (some ret) r = (some ret, platform_driver_unregister r)

init_registered : Bool → Option Errno → Registered → Option Errno × Registered
unfolding register_device
init_registered has_node device_error r =
    if not has_node then register_device device_error r else (none, r)

init_answered : Option Errno → Bool → Option Errno → Registered → Option Errno × Registered
unfolding init_registered
init_answered (some ret) has_node device_error r = (some ret, r)
init_answered none has_node device_error r =
    init_registered has_node device_error (record r { driver = true })

-- `quectel_rm520n_temp_sensor_hwmon_init`
pub driver_init : Answers → Registered → Option Errno × Registered
unfolding init_answered
driver_init a r = init_answered a.driver_error a.has_node a.device_error r

-- `quectel_rm520n_temp_sensor_hwmon_exit`
pub driver_exit : Registered → Registered
driver_exit r =
    platform_driver_unregister (if r.fallback_device then platform_device_unregister r else r)

-- How a load ended: with the driver there, the fallback device exactly if there is no node, and an
-- unload that leaves nothing; or with an error and nothing left registered.
abbrev pub LoadsWhole : Answers → Option Errno × Registered → Type 0
LoadsWhole a (none, r) =
    (r.driver ≡ true) × (r.fallback_device ≡ not a.has_node) × (driver_exit r ≡ nothing)
LoadsWhole a (some e, r) = r ≡ nothing

-- A load registers the driver, with the fallback device exactly if the Device Tree has no node, and
-- an unload then leaves nothing registered; or the load fails and leaves nothing registered itself.
pub driver_init-LoadsWhole : (a : Answers) → LoadsWhole a (driver_init a nothing)
unfolding driver_init driver_exit
driver_init-LoadsWhole a = ground arith

-- ===== src/Kmod/Sensor/Driver.antt =====
-- Loading and unloading of src/kmod/sensor.c: the platform driver, and the device that the Device
-- Tree may have for it.
use quectel_rm520n_thermal.Base.{
  ◌≡◌, refl, Bool, true, false, Option, none, some, if◌then◌else◌, Bool-cases, inl, inr,
}
use quectel_rm520n_thermal.CString.{codes, strcmp_eq}
use quectel_rm520n_thermal.Kmod.Defs.{Bytes, Errno}
use quectel_rm520n_thermal.Kmod.Sensor.{
  TempData, Answers, Probed, bound, gave_up, quectel_temp_probe,
}

-- The driver, the sensor that is bound to it, and the file `cur_temp` of its device.
pub record Loaded : Type 0 where
  pub driver : Bool
  pub sensor : Option TempData
  pub file : Bool

abbrev pub unloaded : Loaded
unloaded = record { driver = false; sensor = none; file = false }

-- A node of the Device Tree, by its `compatible` text, with what its probe meets.
pub record Node : Type 0 where
  pub compatible : Bytes
  pub answers : Answers

-- `quectel_temp_of_match`
unfoldable pub of_match : Bytes → Bool
unfolding strcmp_eq
of_match compatible = strcmp_eq compatible (codes "quectel,rm520n-temp")

-- What a probe leaves; what the kernel keeps for a device that is not bound is freed.
unfoldable pub on_probe : Probed → Loaded → Loaded
on_probe (bound d) l = record l { sensor = some d; file = true }
on_probe (gave_up e) l = l

unfoldable pub bind : Option Node → Loaded → Loaded
unfolding on_probe of_match quectel_temp_probe
bind none l = l
bind (some node) l =
    if of_match node.compatible then on_probe (quectel_temp_probe node.answers) l else l

-- The error that the registration of the driver returns, if there is one.
unfoldable pub driver_init : Option Errno → Option Node → Loaded → Option Errno × Loaded
unfolding bind
driver_init (some ret) n l = (some ret, l)
driver_init none n l = (none, bind n (record l { driver = true }))

-- The flag says that `pdev` is not NULL.
unfoldable pub quectel_temp_remove : Bool → Loaded → Loaded
quectel_temp_remove false l = l
quectel_temp_remove true l = record l { file = false }

-- A bound sensor is removed, and the kernel frees it.
unfoldable pub on_sensor : Option TempData → Loaded → Loaded
unfolding quectel_temp_remove
on_sensor none l = l
on_sensor (some d) l = record (quectel_temp_remove true l) { sensor = none }

unfoldable pub driver_exit : Loaded → Loaded
unfolding on_sensor
driver_exit l = record (on_sensor l.sensor l) { driver = false }

probed-exit : (x : Probed) → driver_exit (on_probe x (record unloaded { driver = true })) ≡ unloaded
unfolding driver_exit on_probe
probed-exit (bound d) = refl
probed-exit (gave_up e) = refl

bound-exit :
    (node : Option Node) → driver_exit (bind node (record unloaded { driver = true })) ≡ unloaded
unfolding bind
bound-exit none = unfold driver_exit in refl
bound-exit (some node) = elim (Bool-cases (of_match node.compatible)) [
  | inl matches ↦ rw matches (probed-exit (quectel_temp_probe node.answers))
  | inr other ↦ rw other (unfold driver_exit in refl)
]

-- An unload behind a load leaves nothing, whatever the Device Tree has and whatever the probe met; a
-- load that fails leaves nothing itself.
abbrev pub LeavesNothing : Option Errno × Loaded → Type 0
LeavesNothing (none, l) = driver_exit l ≡ unloaded
LeavesNothing (some e, l) = l ≡ unloaded

pub driver_init-LeavesNothing :
    (e : Option Errno) (node : Option Node) → LeavesNothing (driver_init e node unloaded)
unfolding driver_init
driver_init-LeavesNothing none n = bound-exit n
driver_init-LeavesNothing (some e) n = refl

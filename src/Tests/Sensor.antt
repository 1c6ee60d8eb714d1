-- ===== src/Tests/Sensor.antt =====
-- src/kmod/sensor.c at concrete writes.
use quectel_rm520n_thermal.Base.{ℕ, ◌≡◌, refl, ℤ, pos, true, Option, none, some, List, [], ◌∷◌}
use quectel_rm520n_thermal.CString.{Bytes, codes, strtol}
use quectel_rm520n_thermal.Kmod.Defs.{InRange, parsed}
use quectel_rm520n_thermal.Kmod.Sensor.{
  quectel_temp_get_temp, run, Answers, bound, quectel_temp_probe,
}
use quectel_rm520n_thermal.Kmod.Sensor.Laws.{fresh, get_temp_of_probe}
use quectel_rm520n_thermal.Tests.Platform.{kernel}

abbrev answers : Answers
answers = record { has_memory = true; has_node = true; zone_error = none; file_error = none }

binds : quectel_temp_probe answers ≡ bound fresh
unfolding quectel_temp_probe
binds = refl

reads_fifty : kernel.kstrtoint (codes "50000") ≡ parsed (pos 50000)
unfolding strtol
reads_fifty = refl

abbrev writes : List (Option Bytes × ℕ)
writes = (some (codes "50000"), 5) ∷ (some (codes "999999"), 6) ∷ []

get_temp_of_probe_example :
    (t : ℤ) × (quectel_temp_get_temp (some (run kernel writes fresh)) ≡ some t) × InRange t
get_temp_of_probe_example = get_temp_of_probe kernel answers writes fresh binds

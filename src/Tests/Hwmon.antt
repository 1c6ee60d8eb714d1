-- ===== src/Tests/Hwmon.antt =====
-- src/kmod/hwmon.c at concrete writes.
use quectel_rm520n_thermal.Base.{
  ℕ, ◌≡◌, ◌≢◌, ◌≤◌, ◌↔◌, refl, pos, ◌<ℤ◌, true, false, none, some, List, [], ◌∷◌, arith,
}
use quectel_rm520n_thermal.CString.{codes, strtol}
use quectel_rm520n_thermal.Kmod.Defs.{
  default_temp_min, default_temp_max, default_temp_crit, default_temp_default, einval, enodev,
  parsed, consumed, rejected,
}
use quectel_rm520n_thermal.Kmod.Sysfs
use quectel_rm520n_thermal.Kmod.Sysfs.Invariant.{initial-IsSound}
use quectel_rm520n_thermal.Kmod.Hwmon.{Data, temp1_input, temp1_min, temp1_max, store, Write}
use quectel_rm520n_thermal.Kmod.Hwmon.Writes.{Admits, Holds, IsSound, store_consumed-Holds}
use quectel_rm520n_thermal.Kmod.Hwmon.Race.{
  System, Reach, AllBounded, Reach-AllBounded, race_inverts,
}
use quectel_rm520n_thermal.Kmod.Hwmon.Probe.{probe, serving, files_of, probe_copies}
use quectel_rm520n_thermal.Kmod.Hwmon.Driver.{Answers}
use quectel_rm520n_thermal.Tests.Platform.{kernel, kernel-ReadsBack, kernel-PrintsShort}

abbrev data_at_start : Data
data_at_start = record {
  temp = default_temp_default;
  temp_min = default_temp_min;
  temp_max = default_temp_max;
  temp_crit = default_temp_crit;
}

start-IsSound : IsSound data_at_start
start-IsSound = omega arith

reads_fifty : kernel.kstrtoint (codes "50000") ≡ parsed (pos 50000)
unfolding strtol
reads_fifty = refl

reads_zero : kernel.kstrtoint (codes "0") ≡ parsed (pos 0)
unfolding strtol
reads_zero = refl

-- A write of more than a page is refused before it is read.
too_long :
    store kernel temp1_input (some (codes "50000")) 4097 data_at_start
    ≡ (rejected einval, data_at_start)
unfolding store
too_long = refl

store_consumed-Holds_example :
    (((store kernel temp1_min (some (codes "50000")) 5 data_at_start).0 ≡ consumed 5)
      ↔ ((◌≢◌ {A = ℕ} 5 0) × (5 ≤ kernel.page_size) × Admits temp1_min (pos 50000) data_at_start))
    × ((store kernel temp1_min (some (codes "50000")) 5 data_at_start).0 ≡ consumed 5
        → Holds temp1_min
            (pos 50000)
            data_at_start
            (store kernel temp1_min (some (codes "50000")) 5 data_at_start).1)
store_consumed-Holds_example =
    store_consumed-Holds kernel temp1_min (codes "50000") 5 data_at_start reads_fifty

abbrev writes : List Write
writes =
    record { attribute = temp1_min; buf = some (codes "50000"); count = 5 }
    ∷ record { attribute = temp1_max; buf = some (codes "0"); count = 1 }
    ∷ []

abbrev system_at_start : System
system_at_start = record { values = data_at_start; waiting = [] }

-- The two writes above, overlapping.
inverted :
    (t : System) × Reach kernel system_at_start t
    × (t.waiting ≡ [])
    × (t.values.temp_max <ℤ t.values.temp_min)
inverted =
    race_inverts kernel data_at_start (codes "50000") (codes "0") 1 (omega arith) (omega arith)
      reads_fifty reads_zero (omega arith) (omega arith) (omega arith) (omega arith)

race_inverts_example :
    (t : System) × Reach kernel system_at_start t
    × (t.waiting ≡ [])
    × (t.values.temp_max <ℤ t.values.temp_min)
race_inverts_example =
    race_inverts kernel data_at_start (codes "50000") (codes "0") 1 (omega arith) (omega arith)
      reads_fifty reads_zero (omega arith) (omega arith) (omega arith) (omega arith)

Reach-AllBounded_example : AllBounded inverted.0
Reach-AllBounded_example =
    Reach-AllBounded kernel {s = system_at_start} {t = inverted.0} (omega arith) inverted.1

probe_copies_example :
    (d : Data) × (probe kernel true none (files_of kernel Sysfs.initial) ≡ serving d)
    × IsSound d
    × (d.temp ≡ Sysfs.initial.temp_default)
    × (d.temp_min ≡ Sysfs.initial.temp_min)
    × (d.temp_max ≡ Sysfs.initial.temp_max)
    × (d.temp_crit ≡ Sysfs.initial.temp_crit)
probe_copies_example =
    probe_copies kernel kernel-ReadsBack kernel-PrintsShort Sysfs.initial initial-IsSound

-- No node, and the fallback device is refused.
abbrev refused_device : Answers
refused_device = record { driver_error = none; has_node = false; device_error = some enodev }

-- ===== src/Tests/Sysfs.antt =====
-- src/kmod/main.c at concrete writes.
use quectel_rm520n_thermal.Base.{ℕ, ◌≡◌, ◌≢◌, ◌↔◌, refl, ℤ, pos, Option, none, some, List, [], ◌∷◌}
use quectel_rm520n_thermal.CString.{Bytes, codes, strtol}
use quectel_rm520n_thermal.Kmod.Defs.{einval, Errno, enomem, parsed, refused, consumed, rejected}
use quectel_rm520n_thermal.Kmod.Sysfs.{
  initial, Attribute, temp, temp_max, temp_crit, store, Write, write, run,
}
use quectel_rm520n_thermal.Kmod.Sysfs.Writes.{Admits, store_consumed_iff}
use quectel_rm520n_thermal.Kmod.Sysfs.Invariant.{IsSound, initial-IsSound, run-IsSound, updates}
use quectel_rm520n_thermal.Tests.Platform.{kernel}

abbrev ninety : Bytes
ninety = codes "90000\n"

abbrev Reads : Bytes → ℤ → Type 0
Reads s v = kernel.kstrtoint s ≡ parsed v

Reads-ninety : Reads ninety (pos 90000)
unfolding strtol
Reads-ninety = refl

refuses_word : kernel.kstrtoint (codes "warm") ≡ refused einval
unfolding strtol
refuses_word = refl

-- The maximum may not fall below the minimum, -30000.
below_min : store kernel temp_max (some (codes "-30001")) 6 0 initial ≡ (rejected einval, initial)
unfolding store initial strtol
below_min = refl

store_consumed_iff_example :
    ((store kernel temp_crit (some ninety) 6 0 initial).0 ≡ consumed 6)
    ↔ ((◌≢◌ {A = ℕ} 6 0) × Admits temp_crit (pos 90000) initial)
store_consumed_iff_example = store_consumed_iff kernel temp_crit ninety 6 0 initial Reads-ninety

abbrev writes : List Write
writes =
    record { attribute = temp; buf = some (codes "45000"); count = 5; jiffies = 1000 }
    ∷ record { attribute = temp_max; buf = some ninety; count = 6; jiffies = 2000 }
    ∷ record { attribute = temp; buf = some (codes "46x"); count = 3; jiffies = 3000 }
    ∷ []

run-IsSound_example : IsSound (run kernel writes initial)
run-IsSound_example = run-IsSound kernel writes initial-IsSound

one_update : updates kernel writes initial ≡ 1
unfolding initial store strtol run write
one_update = refl

Reads-ten : Reads (codes "10000") (pos 10000)
unfolding strtol
Reads-ten = refl

-- The fourth file cannot be created.
abbrev no_crit : Attribute → Option Errno
no_crit temp_crit = some enomem
no_crit _ = none

-- ===== src/UciConfig/Safety.antt =====
-- What `uci_config_mode` of src/uci_config.c never does, whatever the settings hold.
use quectel_rm520n_thermal.Base.{
  ℕ, ◌≡◌, refl, ℤ, pos, ltb_ℤ, Bool, true, false, Bool-cases, Option, none, some, arith, inl, inr,
  length, [],
}
use quectel_rm520n_thermal.CString.{Bytes, print_int}
use quectel_rm520n_thermal.Kmod.Defs.{Kernel}
use quectel_rm520n_thermal.Kmod.Sysfs
use quectel_rm520n_thermal.Kmod.Hwmon
use quectel_rm520n_thermal.Kmod.Sysfs.Invariant
use quectel_rm520n_thermal.Kmod.Hwmon.Writes
use quectel_rm520n_thermal.System.{Cache, find_quectel_hwmon_device, invalidate_hwmon_cache}
use quectel_rm520n_thermal.UciConfig.Values.{Numbers, Outside, Machine, Wanted, option_or}
use quectel_rm520n_thermal.UciConfig.Passes.{
  write_sysfs_value, write_changed, write_option, write_hwmon_option, write_all_changed,
  write_all_options, write_hwmon_options, chosen_device, write_alternative, write_devices,
  write_wanted, config_from, uci_config_mode, current, wanted,
}

-- The thresholds of both modules are sound.
abbrev pub BothSound : Machine → Type 0
BothSound m = Invariant.IsSound m.sysfs × Writes.IsSound m.hwmon

module _ (k : Kernel) (n : Numbers) (o : Outside) where
  write-IsSound :
      (a : Sysfs.Attribute) (v : ℤ) (s : Sysfs.Thresholds)
      → Invariant.IsSound s
      → Invariant.IsSound (write_sysfs_value k n o a v s)
  unfolding write_sysfs_value
  write-IsSound a v s h =
      let text = print_int v [] in
      let stored = Invariant.store-IsSound k a (some text) (length text) o.jiffies h in
      elim (Bool-cases (o.opens_write a)) [ inl up ↦ rw up stored | inr down ↦ rw down h ]

  changed-IsSound :
      (a : Sysfs.Attribute) (v c : ℤ) (s : Sysfs.Thresholds)
      → Invariant.IsSound s
      → Invariant.IsSound (write_changed k n o a v c s)
  unfolding write_changed
  changed-IsSound a v c s h = let w = write-IsSound a v s h in ground arith

  option-IsSound :
      (a : Sysfs.Attribute) (option : Option Bytes) (s : Sysfs.Thresholds)
      → Invariant.IsSound s
      → Invariant.IsSound (write_option k n o a option s)
  unfolding write_option
  option-IsSound a none s h = h
  option-IsSound a (some value) s h = write-IsSound a (option_or n (some value) (pos 0)) s h

  hwmon-IsSound :
      (num : ℤ) (a : Hwmon.Attribute) (option : Option Bytes) (d : Hwmon.Data)
      → Writes.IsSound d
      → Writes.IsSound (write_hwmon_option k n o num a option d)
  unfolding write_hwmon_option
  hwmon-IsSound num a none d h = h
  hwmon-IsSound num a (some value) d h =
      let text = print_int (option_or n (some value) (pos 0)) [] in
      let stored = Writes.store-IsSound k a (some text) (length text) h in
      elim (Bool-cases (o.opens_hwmon num a)) [ inl up ↦ rw up stored | inr down ↦ rw down h ]

  all_changed-IsSound :
      (w c : Wanted) (s : Sysfs.Thresholds)
      → Invariant.IsSound s
      → Invariant.IsSound (write_all_changed k n o w c s)
  unfolding write_all_changed
  all_changed-IsSound w c s h = changed-IsSound Sysfs.temp_default w.temp_default c.temp_default _ (
      changed-IsSound Sysfs.temp_crit w.temp_crit c.temp_crit _ (
        changed-IsSound Sysfs.temp_max w.temp_max c.temp_max _
          (changed-IsSound Sysfs.temp_min w.temp_min c.temp_min s h)))

  all_options-IsSound :
      (s : Sysfs.Thresholds) → Invariant.IsSound s → Invariant.IsSound (write_all_options k n o s)
  unfolding write_all_options
  all_options-IsSound s h = option-IsSound Sysfs.temp_default o.options.temp_default _ (
      option-IsSound Sysfs.temp_crit o.options.temp_crit _ (
        option-IsSound Sysfs.temp_max o.options.temp_max _
          (option-IsSound Sysfs.temp_min o.options.temp_min s h)))

  hwmon_options-IsSound :
      (num : ℤ) (d : Hwmon.Data)
      → Writes.IsSound d
      → Writes.IsSound (write_hwmon_options k n o num d)
  unfolding write_hwmon_options
  hwmon_options-IsSound num d h = hwmon-IsSound num Hwmon.temp1_crit o.options.temp_crit _ (
      hwmon-IsSound num Hwmon.temp1_max o.options.temp_max _
        (hwmon-IsSound num Hwmon.temp1_min o.options.temp_min d h))

module _ (k : Kernel) (n : Numbers) (long_max : ℕ) (o : Outside) where
  alternative-BothSound :
      (m : Machine) → BothSound m → BothSound (write_alternative k n long_max o m)
  unfolding write_alternative
  alternative-BothSound m (h, g) =
      let (num, cache) =
        find_quectel_hwmon_device long_max o.device_readable o.entries false
          (invalidate_hwmon_cache m.cache) in
      let crit = hwmon-IsSound k n o num Hwmon.temp1_crit o.options.temp_crit m.hwmon g in
      elim (Bool-cases (ltb_ℤ num (pos 0))) [
        | inl gone ↦ rw gone (h, g)
        | inr there ↦ rw there (h, crit)
      ]

  devices-BothSound :
      (found : ℤ × Cache) (m : Machine)
      → BothSound m
      → BothSound (write_devices k n long_max o found m)
  unfolding write_devices
  devices-BothSound (found, cache) m (h, g) =
      let num = chosen_device k n long_max o o.override found in
      elim (Bool-cases (ltb_ℤ num (pos 0))) [
        | inl gone ↦ rw gone (alternative-BothSound (record m { cache = cache }) (h, g))
        | inr there ↦
            rw there
              (all_options-IsSound k n o m.sysfs h, hwmon_options-IsSound k n o num m.hwmon g)
      ]

  wanted-BothSound :
      (w c : Wanted) (m : Machine) → BothSound m → BothSound (write_wanted k n long_max o w c m).1
  unfolding write_wanted
  wanted-BothSound w c m (h, g) =
      let written =
        devices-BothSound
          (find_quectel_hwmon_device long_max o.device_readable o.entries true m.cache)
          (record m { sysfs = write_all_changed k n o w c m.sysfs })
          (all_changed-IsSound k n o w c m.sysfs h, g) in
      elim (Bool-cases (ltb_ℤ w.temp_min w.temp_max)) [
        | inl less ↦ elim (Bool-cases (ltb_ℤ w.temp_max w.temp_crit)) [
          | inl below ↦ rw (less, below) written
          | inr above ↦ rw (less, above) (h, g)
        ]
        | inr more ↦ rw more (h, g)
      ]

  config-BothSound :
      (b : Bool) (c : Wanted) (m : Machine)
      → BothSound m
      → BothSound (config_from k n long_max o b c m).1
  unfolding config_from
  config-BothSound false c m h = h
  config-BothSound true c m h = wanted-BothSound (wanted k n o c) c m h

  -- Whatever the settings hold and whichever files can be opened, the thresholds of both modules stay
  -- sound.
  pub uci_config_mode-BothSound :
      (m : Machine) → BothSound m → BothSound (uci_config_mode k n long_max o m).1
  unfolding uci_config_mode
  uci_config_mode-BothSound m h = config-BothSound o.has_sysfs (current k n o m.sysfs) m h

  wanted_failed :
      (w c : Wanted) (m : Machine)
      → (write_wanted k n long_max o w c m).0 ≡ 1
      → (write_wanted k n long_max o w c m).1 ≡ m
  unfolding write_wanted
  wanted_failed w c m e = elim (Bool-cases (ltb_ℤ w.temp_min w.temp_max)) [
    | inl less ↦ elim (Bool-cases (ltb_ℤ w.temp_max w.temp_crit)) [
      | inl below ↦ absurd (omega (arith, rw (less, below) at e))
      | inr above ↦ rw (less, above) refl
    ]
    | inr more ↦ rw more refl
  ]

  config_failed :
      (b : Bool) (c : Wanted) (m : Machine)
      → (config_from k n long_max o b c m).0 ≡ 1
      → (config_from k n long_max o b c m).1 ≡ m
  unfolding config_from
  config_failed false c m e = refl
  config_failed true c m e = wanted_failed (wanted k n o c) c m e

  -- A run that returns 1 has changed nothing.
  pub uci_config_mode_failed :
      (m : Machine)
      → (uci_config_mode k n long_max o m).0 ≡ 1
      → (uci_config_mode k n long_max o m).1 ≡ m
  unfolding uci_config_mode
  uci_config_mode_failed m e = config_failed o.has_sysfs (current k n o m.sysfs) m e

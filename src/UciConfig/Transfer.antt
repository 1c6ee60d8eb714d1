-- ===== src/UciConfig/Transfer.antt =====
-- When `uci_config_mode` of src/uci_config.c brings the settings' thresholds into the sysfs module.
use quectel_rm520n_thermal.Base.{ℕ, ◌≡◌, refl, ◌∙◌, ap, ℤ, pos, ◌<ℤ◌, ltb_ℤ, true, false, arith}
use quectel_rm520n_thermal.Kmod.Defs.{Kernel}
use quectel_rm520n_thermal.Kmod.Printed.{ReadsPrinted}
use quectel_rm520n_thermal.Kmod.Sysfs.Invariant.{IsSound}
use quectel_rm520n_thermal.System.{Cache, find_quectel_hwmon_device}
use quectel_rm520n_thermal.UciConfig.Values.{Numbers, Outside, Machine, Wanted}
use quectel_rm520n_thermal.UciConfig.Passes.{
  current, wanted, write_all_changed, write_all_options, chosen_device, write_alternative,
  write_devices, write_wanted, config_from, uci_config_mode,
}
use quectel_rm520n_thermal.UciConfig.Writes.{
  IsOrdered, thresholds_of, with_all, with_upper, upper_only_changed,
}
use quectel_rm520n_thermal.UciConfig.TwoPasses.{ScansShown, IsOpen, current_read, passes_put}

module _ (k : Kernel) (n : Numbers) (long_max : ℕ) (o : Outside) where
  -- The search finds no device, not even when it is repeated, and none is given.
  abbrev pub NoDevice : Cache → Type 0
  NoDevice c =
      let (num, cache) = find_quectel_hwmon_device long_max o.device_readable o.entries true c in
      (ltb_ℤ (chosen_device k n long_max o o.override num) (pos 0) ≡ true)

  -- There is a device to be written to.
  abbrev pub HasDevice : Cache → Type 0
  HasDevice c =
      let (num, cache) = find_quectel_hwmon_device long_max o.device_readable o.entries true c in
      (ltb_ℤ (chosen_device k n long_max o o.override num) (pos 0) ≡ false)

  devices_written :
      (found : ℤ × Cache) (m : Machine)
      → ltb_ℤ (chosen_device k n long_max o o.override found.0) (pos 0) ≡ false
      → (write_devices k n long_max o found m).sysfs ≡ write_all_options k n o m.sysfs
  unfolding write_devices
  devices_written (num, cache) m e = rw e refl

  alternative_keeps : (m : Machine) → (write_alternative k n long_max o m).sysfs ≡ m.sysfs
  unfolding write_alternative
  alternative_keeps m = ground arith

  no_device_keeps :
      (found : ℤ × Cache) (m : Machine)
      → ltb_ℤ (chosen_device k n long_max o o.override found.0) (pos 0) ≡ true
      → (write_devices k n long_max o found m).sysfs ≡ m.sysfs
  unfolding write_devices
  no_device_keeps (num, cache) m e = rw e (alternative_keeps (record m { cache = cache }))

  wanted_written :
      (w c : Wanted) (m : Machine)
      → IsOrdered w
      → write_wanted k n long_max o w c m ≡ (
        0,
        write_devices k n long_max o
            (find_quectel_hwmon_device long_max o.device_readable o.entries true m.cache)
            (record m { sysfs = write_all_changed k n o w c m.sysfs }),
      )
  unfolding write_wanted
  wanted_written w c m h =
      let less : ltb_ℤ w.temp_min w.temp_max ≡ true = ground (arith, h.min_max) in
      let below : ltb_ℤ w.temp_max w.temp_crit ≡ true = ground (arith, h.max_crit) in
      rw (less, below) refl

mode_written :
    (k : Kernel) (n : Numbers) (long_max : ℕ) (o : Outside) (m : Machine)
    → ScansShown k n
    → IsOpen o
    → IsSound m.sysfs
    → IsOrdered (wanted k n o (thresholds_of m.sysfs))
    → let c = thresholds_of m.sysfs in
      let s = write_all_changed k n o (wanted k n o c) c m.sysfs in
      uci_config_mode k n long_max o m ≡ (
        0,
        write_devices k n long_max o
            (find_quectel_hwmon_device long_max o.device_readable o.entries true m.cache)
            (record m { sysfs = s }),
      )
unfolding uci_config_mode config_from
mode_written k n long_max o m scans ready sound h =
    let c = thresholds_of m.sysfs in
    ap (λ b. config_from k n long_max o b (current k n o m.sysfs) m) ready.present
    ∙ ap (λ x. config_from k n long_max o true x m) (current_read k n o scans ready m.sysfs sound)
    ∙ wanted_written k n long_max o (wanted k n o c) c m h

-- Where the files of the sysfs module can be opened, its thresholds are sound, and a number of an hwmon
-- device is found or given, the thresholds of the settings, completed by the current ones, are those
-- of the sysfs module afterwards, if they are in order: the minimum below the maximum, the maximum
-- below the critical threshold, all in range, and the default between minimum and maximum. The kernel
-- is taken to read a printed `int`, and `fscanf` to read what the kernel shows of one.
pub uci_config_mode-with_all :
    (k : Kernel) (n : Numbers) (long_max : ℕ) (o : Outside) (m : Machine)
    → ReadsPrinted k
    → ScansShown k n
    → IsOpen o
    → IsSound m.sysfs
    → HasDevice k n long_max o m.cache
    → IsOrdered (wanted k n o (thresholds_of m.sysfs))
    → let (r, m') = uci_config_mode k n long_max o m in
      (r ≡ 0) × (m'.sysfs ≡ with_all (wanted k n o (thresholds_of m.sysfs)) m.sysfs)
uci_config_mode-with_all k n long_max o m reads scans ready sound device h =
    let c = thresholds_of m.sysfs in
    let w = wanted k n o c in
    let e = mode_written k n long_max o m scans ready sound h in
    (
      ap (λ x. x.0) e,
      ap (λ x. x.1.sysfs) e
          ∙ devices_written k n long_max o _ _ device
          ∙ passes_put k n o reads ready w m.sysfs refl h sound,
    )

-- Under the same conditions, but with no number of an hwmon device found or given, a minimum above the
-- old maximum does not arrive, though the function returns 0 and the other thresholds are those of the
-- settings.
pub raised_min_lost :
    (k : Kernel) (n : Numbers) (long_max : ℕ) (o : Outside) (m : Machine)
    → ReadsPrinted k
    → ScansShown k n
    → IsOpen o
    → IsSound m.sysfs
    → NoDevice k n long_max o m.cache
    → IsOrdered (wanted k n o (thresholds_of m.sysfs))
    → m.sysfs.temp_max <ℤ (wanted k n o (thresholds_of m.sysfs)).temp_min
    → let (r, m') = uci_config_mode k n long_max o m in
      (r ≡ 0) × (m'.sysfs ≡ with_upper (wanted k n o (thresholds_of m.sysfs)) m.sysfs)
raised_min_lost k n long_max o m reads scans ready sound device h high =
    let c = thresholds_of m.sysfs in
    let w = wanted k n o c in
    let e = mode_written k n long_max o m scans ready sound h in
    (
      ap (λ x. x.0) e,
      ap (λ x. x.1.sysfs) e
          ∙ no_device_keeps k n long_max o _ _ device
          ∙ upper_only_changed k n o reads w m.sysfs ready.writes h sound.min_max high,
    )

-- ===== src/UciConfig/Passes.antt =====
-- src/uci_config.c: the two passes of `uci_config_mode` over the files of the kernel modules.
use quectel_rm520n_thermal.Base.{
  ℕ, ℤ, pos, neg, eqb_ℤ, ltb_ℤ, Bool, true, false, not, ◌||◌, if◌then◌else◌, Option, none, some, [],
  length,
}
use quectel_rm520n_thermal.CString.{Bytes, strtol, print_int}
use quectel_rm520n_thermal.Config.{whole_number}
use quectel_rm520n_thermal.System.{Cache, invalidate_hwmon_cache, find_quectel_hwmon_device}
use quectel_rm520n_thermal.Kmod.Defs.{Kernel}
use quectel_rm520n_thermal.Kmod.Sysfs
use quectel_rm520n_thermal.Kmod.Hwmon
use quectel_rm520n_thermal.UciConfig.Values.{
  hwmon_num_max, Numbers, Outside, Machine, Wanted, option_or, scanned,
}

module _ (k : Kernel) (n : Numbers) (o : Outside) where
  unfoldable pub read_sysfs_value : Sysfs.Attribute → Sysfs.Thresholds → ℤ
  read_sysfs_value a s = if o.opens_read a then scanned n (Sysfs.show k a true s) else neg 1

  -- The state behind the write; `-1` and 0 are told apart for the log alone.
  unfoldable pub write_sysfs_value : Sysfs.Attribute → ℤ → Sysfs.Thresholds → Sysfs.Thresholds
  write_sysfs_value a value s =
      let text = print_int value [] in
      if o.opens_write a then (Sysfs.store k a (some text) (length text) o.jiffies s).1 else s

  unfoldable pub write_changed : Sysfs.Attribute → ℤ → ℤ → Sysfs.Thresholds → Sysfs.Thresholds
  unfolding write_sysfs_value
  write_changed a value current s = if eqb_ℤ value current then s else write_sysfs_value a value s

  unfoldable pub write_option : Sysfs.Attribute → Option Bytes → Sysfs.Thresholds → Sysfs.Thresholds
  unfolding write_sysfs_value option_or
  write_option a none s = s
  write_option a (some value) s = write_sysfs_value a (option_or n (some value) (pos 0)) s

  unfoldable pub write_hwmon_option : ℤ → Hwmon.Attribute → Option Bytes → Hwmon.Data → Hwmon.Data
  unfolding option_or
  write_hwmon_option num a none d = d
  write_hwmon_option num a (some value) d =
      let text = print_int (option_or n (some value) (pos 0)) [] in
      if o.opens_hwmon num a then (Hwmon.store k a (some text) (length text) d).1 else d

  -- The four current values, and those of the settings.
  unfoldable pub current : Sysfs.Thresholds → Wanted
  unfolding read_sysfs_value
  current s = record {
    temp_min = read_sysfs_value Sysfs.temp_min s;
    temp_max = read_sysfs_value Sysfs.temp_max s;
    temp_crit = read_sysfs_value Sysfs.temp_crit s;
    temp_default = read_sysfs_value Sysfs.temp_default s;
  }

  unfoldable pub wanted : Wanted → Wanted
  unfolding option_or
  wanted c = record {
    temp_min = option_or n o.options.temp_min c.temp_min;
    temp_max = option_or n o.options.temp_max c.temp_max;
    temp_crit = option_or n o.options.temp_crit c.temp_crit;
    temp_default = option_or n o.options.temp_default c.temp_default;
  }

  -- The first pass: what differs.
  unfoldable pub write_all_changed : Wanted → Wanted → Sysfs.Thresholds → Sysfs.Thresholds
  unfolding write_changed
  write_all_changed w c s = write_changed Sysfs.temp_default w.temp_default c.temp_default (
      write_changed Sysfs.temp_crit w.temp_crit c.temp_crit (
        write_changed Sysfs.temp_max w.temp_max c.temp_max
          (write_changed Sysfs.temp_min w.temp_min c.temp_min s)))

  -- The second pass: every option that is set.
  unfoldable pub write_all_options : Sysfs.Thresholds → Sysfs.Thresholds
  unfolding write_option
  write_all_options s = write_option Sysfs.temp_default o.options.temp_default (
      write_option Sysfs.temp_crit o.options.temp_crit (
        write_option Sysfs.temp_max o.options.temp_max
          (write_option Sysfs.temp_min o.options.temp_min s)))

  unfoldable pub write_hwmon_options : ℤ → Hwmon.Data → Hwmon.Data
  unfolding write_hwmon_option
  write_hwmon_options num d = write_hwmon_option num Hwmon.temp1_crit o.options.temp_crit (
      write_hwmon_option num Hwmon.temp1_max o.options.temp_max
        (write_hwmon_option num Hwmon.temp1_min o.options.temp_min d))

module _ (k : Kernel) (n : Numbers) (long_max : ℕ) (o : Outside) where
  abbrev pub override_or : Option ℤ → ℤ → ℤ
  override_or none num = num
  override_or (some manual) num =
      if ltb_ℤ manual (pos 0) || ltb_ℤ hwmon_num_max manual then num else manual

  unfoldable pub chosen_device : Option Bytes → ℤ → ℤ
  unfolding strtol
  chosen_device none num = num
  chosen_device (some manual_hwmon) num =
      override_or (whole_number (strtol long_max manual_hwmon)) num

  -- The search once more, and the critical threshold alone.
  unfoldable pub write_alternative : Machine → Machine
  unfolding invalidate_hwmon_cache find_quectel_hwmon_device write_hwmon_option
  write_alternative m =
      let (num, cache) =
        find_quectel_hwmon_device long_max o.device_readable o.entries false
          (invalidate_hwmon_cache m.cache) in
      if ltb_ℤ num (pos 0) then record m { cache = cache } else record m {
        cache = cache;
        hwmon = write_hwmon_option k n o num Hwmon.temp1_crit o.options.temp_crit m.hwmon;
      }

  unfoldable pub write_devices : ℤ × Cache → Machine → Machine
  unfolding chosen_device write_alternative write_hwmon_options write_all_options
  write_devices (found, cache) m =
      let num = chosen_device o.override found in
      if ltb_ℤ num (pos 0) then write_alternative (record m { cache = cache }) else record m {
        cache = cache;
        hwmon = write_hwmon_options k n o num m.hwmon;
        sysfs = write_all_options k n o m.sysfs;
      }

  unfoldable pub write_wanted : Wanted → Wanted → Machine → ℕ × Machine
  unfolding write_devices write_all_changed find_quectel_hwmon_device
  write_wanted w c m =
      if not (ltb_ℤ w.temp_min w.temp_max)
      then (1, m)
      else if not (ltb_ℤ w.temp_max w.temp_crit)
      then (1, m)
      else (
        0,
        write_devices (find_quectel_hwmon_device long_max o.device_readable o.entries true m.cache)
            (record m { sysfs = write_all_changed k n o w c m.sysfs }),
      )

  -- The flag says that the directory of the sysfs module is there.
  unfoldable pub config_from : Bool → Wanted → Machine → ℕ × Machine
  unfolding write_wanted wanted
  config_from false c m = (1, m)
  config_from true c m = write_wanted (wanted k n o c) c m

  unfoldable pub uci_config_mode : Machine → ℕ × Machine
  unfolding config_from current
  uci_config_mode m = config_from o.has_sysfs (current k n o m.sysfs) m

-- ===== src/Kmod/Hwmon/Probe.antt =====
-- Start and end of the hwmon module. A file that the kernel opens is its content, and what the
-- kernel answers to an allocation or a registration is an argument.
use quectel_rm520n_thermal.Base.{
  ℕ, ◌-◌, ◌≤◌, ◌<◌, ◌≡◌, refl, ℤ, Bool, true, false, ◌&&◌, Option, none, some, arith, ltb,
  if◌then◌else◌, length, take, take-all,
}
use quectel_rm520n_thermal.Kmod.Defs.{
  Bytes, default_temp_min, default_temp_max, default_temp_crit, default_temp_default, IsInt, Errno,
  enomem, Parsed, parsed, refused, int_line, Kernel, ReadsBack, Shown, shown, unreadable,
}
use quectel_rm520n_thermal.Kmod.Sysfs
use quectel_rm520n_thermal.Kmod.Sysfs.{Thresholds, show}
use quectel_rm520n_thermal.Kmod.Sysfs.Invariant
use quectel_rm520n_thermal.Kmod.Hwmon.{Data}
use quectel_rm520n_thermal.Kmod.Hwmon.Writes.{IsSound}

-- `char buf[32]`
abbrev buffer_size : ℕ
buffer_size = 32

abbrev parsed_or : Parsed → ℤ → ℤ
parsed_or (parsed v) default_val = v
parsed_or (refused _) default_val = default_val

-- The four files of the main module, each with its content if it can be opened and read.
pub record Files : Type 0 where
  pub temp_min : Option Bytes
  pub temp_max : Option Bytes
  pub temp_crit : Option Bytes
  pub temp_default : Option Bytes

-- How the probe ended; the data is what the driver then serves.
pub data Probed : Type 0 where
  serving : Data → Probed
  gave_up : Errno → Probed

module _ (k : Kernel) where
  -- `kernel_read` gives at most 31 bytes; a byte after them ends the text.
  read_sysfs_value : Option Bytes → ℤ → ℤ
  read_sysfs_value none default_val = default_val
  read_sysfs_value (some content) default_val =
      let buf = take (buffer_size - 1) content in
      if ltb 0 (length buf) && ltb (length buf) buffer_size
      then parsed_or (k.kstrtoint buf) default_val
      else default_val

  read_thresholds : Files → Data
  unfolding read_sysfs_value
  read_thresholds f = record {
    temp = read_sysfs_value f.temp_default default_temp_default;
    temp_min = read_sysfs_value f.temp_min default_temp_min;
    temp_max = read_sysfs_value f.temp_max default_temp_max;
    temp_crit = read_sysfs_value f.temp_crit default_temp_crit;
  }

  -- The flag says that `devm_kzalloc` gave memory, the option is the error of
  -- `devm_hwmon_device_register_with_groups`.
  pub probe : Bool → Option Errno → Files → Probed
  unfolding read_thresholds
  probe false register f = gave_up enomem
  probe true (some e) f = gave_up e
  probe true none f = serving (read_thresholds f)

  abbrev pub content : Shown → Option Bytes
  content (shown text) = some text
  content (unreadable _) = none

  -- The files as the main module shows them.
  abbrev pub files_of : Thresholds → Files
  files_of s = record {
    temp_min = content (show k Sysfs.temp_min true s);
    temp_max = content (show k Sysfs.temp_max true s);
    temp_crit = content (show k Sysfs.temp_crit true s);
    temp_default = content (show k Sysfs.temp_default true s);
  }

  -- A printed `int` and its newline are 1 to 31 bytes.
  abbrev pub PrintsShort : Type 0
  PrintsShort =
      (v : ℤ)
      → IsInt v
      → (0 < length (k.scnprintf k.page_size (int_line v)))
        × (length (k.scnprintf k.page_size (int_line v)) ≤ 31)

  read_shown :
      ReadsBack k
      → PrintsShort
      → (v d : ℤ) → IsInt v
      → read_sysfs_value (some (k.scnprintf k.page_size (int_line v))) d ≡ v
  unfolding read_sysfs_value
  read_shown back short v d h =
      rw (take-all 31 (k.scnprintf k.page_size (int_line v)) (short v h).1)
        (rw (back v h) (ground (arith, short v h)))

  -- Without the main module's files the device starts with the default thresholds.
  pub probe_defaults :
      (f : Files)
      → f ≡ record { temp_min = none; temp_max = none; temp_crit = none; temp_default = none }
      → probe true none f
        ≡ serving (record {
          temp = default_temp_default;
          temp_min = default_temp_min;
          temp_max = default_temp_max;
          temp_crit = default_temp_crit;
        })
  unfolding probe
  probe_defaults f h = rw h

  -- Beside a main module with sound thresholds the device starts with the same thresholds, its
  -- temperature at their default, and they are sound for it too.
  pub probe_copies :
      ReadsBack k
      → PrintsShort
      → (s : Thresholds) → Invariant.IsSound s
      → (d : Data) × (probe true none (files_of s) ≡ serving d)
        × IsSound d
        × (d.temp ≡ s.temp_default)
        × (d.temp_min ≡ s.temp_min)
        × (d.temp_max ≡ s.temp_max)
        × (d.temp_crit ≡ s.temp_crit)
  unfolding probe show
  probe_copies back short s h = (
    record {
      temp = s.temp_default;
      temp_min = s.temp_min;
      temp_max = s.temp_max;
      temp_crit = s.temp_crit;
    },
    rw (
      read_shown back short s.temp_default default_temp_default (omega arith),
      read_shown back short s.temp_min default_temp_min (omega arith),
      read_shown back short s.temp_max default_temp_max (omega arith),
      read_shown back short s.temp_crit default_temp_crit (omega arith),
    ),
    omega arith,
    refl,
    refl,
    refl,
    refl,
  )

-- ===== src/Kmod/Defs.antt =====
-- Constants of src/include/common.h, and the kernel's side of a sysfs callback.
use quectel_rm520n_thermal.Base.{ℕ, ℤ, pos, neg, ◌≤ℤ◌, ◌≡◌, List}

abbrev pub Bytes : Type 0
Bytes = List ℕ

-- Millidegrees Celsius.
abbrev pub default_temp_min : ℤ
default_temp_min = neg 30000

abbrev pub default_temp_max : ℤ
default_temp_max = pos 75000

abbrev pub default_temp_crit : ℤ
default_temp_crit = pos 85000

abbrev pub default_temp_default : ℤ
default_temp_default = pos 40000

abbrev pub temp_absolute_min : ℤ
temp_absolute_min = neg 40000

abbrev pub temp_absolute_max : ℤ
temp_absolute_max = pos 125000

-- The values of a C `int`.
abbrev pub IsInt : ℤ → Type 0
IsInt v = (neg 2147483648 ≤ℤ v) × (v ≤ℤ pos 2147483647)

-- The absolute range of the hardware.
abbrev pub InRange : ℤ → Type 0
InRange v = (temp_absolute_min ≤ℤ v) × (v ≤ℤ temp_absolute_max)

-- `other n` is any error that the module only hands on.
pub data Errno : Type 0 where
  einval enomem enodev eio : Errno
  other : ℕ → Errno

-- What `kstrtoint` returns: 0 with the value behind the pointer, or a negative error.
pub data Parsed : Type 0 where
  parsed : ℤ → Parsed
  refused : Errno → Parsed

-- The texts that the modules print.
pub data Line : Type 0 where
  int_line : ℤ → Line  -- "%d\n"
  stats_lines : ℕ → ℕ → Line  -- "total_updates: %lu\nlast_update_time: %lu\n"

-- Kernel functions and constants that the modules are compiled against.
pub record Kernel : Type 0 where
  pub kstrtoint : Bytes → Parsed  -- in base 10
  pub scnprintf : ℕ → Line → Bytes  -- the text left in a buffer of that size
  pub page_size : ℕ
  pub hz : ℕ
  pub ulong_mod : ℕ  -- 2 ^ the width of `unsigned long`

-- `kstrtoint` gives values of an `int`.
abbrev pub ParsesInts : Kernel → Type 0
ParsesInts k = (s : Bytes) (v : ℤ) → k.kstrtoint s ≡ parsed v → IsInt v

-- A printed `int` fits a page, and `kstrtoint` reads it back.
abbrev pub ReadsBack : Kernel → Type 0
ReadsBack k = (v : ℤ) → IsInt v → k.kstrtoint (k.scnprintf k.page_size (int_line v)) ≡ parsed v

-- The `ssize_t` of a `store` callback: the bytes consumed, or a negative error.
pub data Stored : Type 0 where
  consumed : ℕ → Stored
  rejected : Errno → Stored

-- The `ssize_t` of a `show` callback, with the text that it left in the buffer.
pub data Shown : Type 0 where
  shown : Bytes → Shown
  unreadable : Errno → Shown

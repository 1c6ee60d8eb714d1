-- ===== src/UciConfig/Values.antt =====
-- src/uci_config.c: what the settings hold of the thresholds, and what the function meets.
use quectel_rm520n_thermal.Base.{
  ℕ, ◌-◌, ℤ, pos, neg, Bool, true, not, ◌||◌, if◌then◌else◌, Option, none, some, List, [], ◌∷◌,
  take, ◌==◌,
}
use Prim.Native.String.{String}
use quectel_rm520n_thermal.CString.{Bytes, isspace}
use quectel_rm520n_thermal.Config.{Uci, no_context, not_loaded, not_found, no_section, settings}
use quectel_rm520n_thermal.System.{Entry, Cache}
use quectel_rm520n_thermal.Kmod.Defs.{default_temp_default, Shown, shown, unreadable}
use quectel_rm520n_thermal.Kmod.Sysfs
use quectel_rm520n_thermal.Kmod.Hwmon

-- `HWMON_NUM_MAX`, and the size of `uci_value`
abbrev pub hwmon_num_max : ℤ
hwmon_num_max = pos 255

abbrev pub value_size : ℕ
value_size = 64

-- What `strtod` leaves: `endptr` at the start, or the number, whether `errno` is ERANGE, and the text
-- at `endptr`.
pub data Floated (Double : Type 0) : Type 0 where
  unfloated : Floated Double
  floated : Double → Bool → Bytes → Floated Double

-- The functions of the C library and of the compiler that are called on numbers.
pub record Numbers : Type 1 where
  pub Double : Type 0
  pub strtod : Bytes → Floated Double
  pub in_degrees : Double → Bool  -- not below -40 and not above 125
  pub millidegrees : Double → ℤ  -- `(int)(celsius * 1000.0)`
  pub scan_int : Bytes → Option ℤ  -- `fscanf(fp, "%d", &value) == 1`

-- What `read_uci_option` leaves of each threshold, for the result 0.
pub record Options : Type 0 where
  pub temp_min : Option Bytes
  pub temp_max : Option Bytes
  pub temp_crit : Option Bytes
  pub temp_default : Option Bytes

-- The flags say that `option` and `buffer` are not NULL; `some` of the text for the result 0. The last
-- place of the buffer is for the NUL.
unfoldable pub found_option : ℕ → Option Bytes → Option Bytes
found_option buffer_size none = none
found_option buffer_size (some value) = some (take (buffer_size - 1) value)

unfoldable pub looked_up : Uci → String → ℕ → Option Bytes
unfolding found_option
looked_up no_context option buffer_size = none
looked_up not_loaded option buffer_size = none
looked_up not_found option buffer_size = none
looked_up no_section option buffer_size = none
looked_up (settings values) option buffer_size = found_option buffer_size (values option)

unfoldable pub read_uci_option : Bool → Bool → Uci → String → ℕ → Option Bytes
unfolding looked_up
read_uci_option has_option has_buffer uci option buffer_size =
    if not has_option || not has_buffer || buffer_size == 0
    then none
    else looked_up uci option buffer_size

-- The four thresholds that the settings have.
unfoldable pub options_of : Uci → Options
unfolding read_uci_option
options_of uci = record {
  temp_min = read_uci_option true true uci "temp_min" value_size;
  temp_max = read_uci_option true true uci "temp_max" value_size;
  temp_crit = read_uci_option true true uci "temp_crit" value_size;
  temp_default = read_uci_option true true uci "temp_default" value_size;
}

-- What stands outside the two modules: the options, the clock, which files can be opened, the
-- directory of the hwmon devices, and the value of QUECTEL_HWMON_OVERRIDE.
pub record Outside : Type 0 where
  pub options : Options
  pub jiffies : ℕ
  pub has_sysfs : Bool
  pub opens_read : Sysfs.Attribute → Bool
  pub opens_write : Sysfs.Attribute → Bool
  pub opens_hwmon : ℤ → Hwmon.Attribute → Bool  -- of the module, in the directory of that number
  pub device_readable : ℤ → Bool
  pub entries : Option (List Entry)
  pub override : Option Bytes

-- The variables of the two modules, and the cache of the search.
pub record Machine : Type 0 where
  pub sysfs : Sysfs.Thresholds
  pub hwmon : Hwmon.Data
  pub cache : Cache

-- Four thresholds.
pub record Wanted : Type 0 where
  pub temp_min : ℤ
  pub temp_max : ℤ
  pub temp_crit : ℤ
  pub temp_default : ℤ

abbrev pub ends_number : Bytes → Bool
ends_number [] = true
ends_number (c ∷ rest) = isspace c

module _ (n : Numbers) where
  unfoldable pub of_floated : Floated n.Double → ℤ
  of_floated unfloated = default_temp_default
  of_floated (floated celsius range rest) =
      if range || not (ends_number rest)
      then default_temp_default
      else if not (n.in_degrees celsius)
      then default_temp_default
      else n.millidegrees celsius

  unfoldable pub celsius_to_millidegrees : Option Bytes → ℤ
  unfolding of_floated
  celsius_to_millidegrees none = default_temp_default
  celsius_to_millidegrees (some []) = default_temp_default
  celsius_to_millidegrees (some (c ∷ s)) = of_floated (n.strtod (c ∷ s))

  -- An option's threshold, or what there is without it.
  unfoldable pub option_or : Option Bytes → ℤ → ℤ
  unfolding celsius_to_millidegrees
  option_or none current = current
  option_or (some value) current = celsius_to_millidegrees (some value)

  abbrev pub scanned : Shown → ℤ
  scanned (unreadable e) = neg 1
  scanned (shown text) = elim (n.scan_int text) [ none ↦ neg 1 | some v ↦ v ]

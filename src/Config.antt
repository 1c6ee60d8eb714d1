-- ===== src/Config.antt =====
-- src/config.c: the settings, and how they are read from UCI. The width of `long` is a parameter, by
-- its largest value. The calls of the logger are left out.
pub mod Port
pub mod Validity
pub mod Parsing
use Prim.Native.String.{String}
use quectel_rm520n_thermal.Base.{
  ℕ, ◌-◌, ℤ, pos, ltb, ltb_ℤ, eqb_ℤ, Bool, true, false, not, ◌&&◌, ◌||◌, ◌==◌, if◌then◌else◌,
  Option, none, some, List, [], ◌∷◌, length, take,
}
use quectel_rm520n_thermal.CString.{
  Bytes, codes, strcmp_eq, starts_with, contains, Converted, unconverted, converted, strtol,
}

-- `CONFIG_STRING_LEN`
abbrev pub config_string_len : ℕ
config_string_len = 64

-- `SAFE_STRNCPY` into an array of that size: what is left before the NUL.
abbrev pub safe_strncpy : ℕ → Bytes → Bytes
safe_strncpy size src = take (size - 1) src

-- The `speed_t` constants that the program uses.
pub data Speed : Type 0 where
  b9600 b19200 b38400 b57600 b115200 : Speed

-- The syslog priorities that the program uses.
pub data Priority : Type 0 where
  log_err log_warning log_info log_debug : Priority

-- `config_t`
pub record Config : Type 0 where
  pub serial_port : Bytes
  pub interval : ℤ
  pub baud_rate : Speed
  pub error_value : Bytes
  pub log_level : Bytes
  pub temp_modem_prefix : Bytes
  pub temp_ap_prefix : Bytes
  pub temp_pa_prefix : Bytes

-- `strpbrk(s, set) != NULL`
unfoldable pub member : ℕ → Bytes → Bool
member c [] = false
member c (d ∷ set) = c == d || member c set

unfoldable pub contains_any : Bytes → Bytes → Bool
unfolding member
contains_any set [] = false
contains_any set (c ∷ s) = member c set || contains_any set s

abbrev pub metacharacters : Bytes
metacharacters = codes ";|&$`\n"

-- `true` for the result 0.
unfoldable pub validate_serial_port : Option Bytes → Bool
validate_serial_port none = false
validate_serial_port (some port) =
    if ltb (length port) 5
    then false
    else if not (starts_with (codes "/dev/") port)
    then false
    else if contains (codes "..") port
    then false
    else if contains_any metacharacters port
    then false
    else true

-- Every field is assigned, so the result does not depend on what was there.
unfoldable pub config_set_defaults : Config
config_set_defaults = record {
  serial_port = safe_strncpy config_string_len (codes "/dev/ttyUSB2");
  interval = pos 10;
  baud_rate = b115200;
  error_value = safe_strncpy config_string_len (codes "N/A");
  log_level = safe_strncpy config_string_len (codes "info");
  temp_modem_prefix = safe_strncpy config_string_len (codes "modem-ambient-usr");
  temp_ap_prefix = safe_strncpy config_string_len (codes "cpuss-0-usr");
  temp_pa_prefix = safe_strncpy config_string_len (codes "modem-lte-sub6-pa1");
}

unfoldable pub config_parse_log_level : Option Bytes → Priority
unfolding strcmp_eq
config_parse_log_level none = log_info
config_parse_log_level (some level_str) =
    if strcmp_eq level_str (codes "debug")
    then log_debug
    else if strcmp_eq level_str (codes "info")
    then log_info
    else if strcmp_eq level_str (codes "warning")
    then log_warning
    else if strcmp_eq level_str (codes "error")
    then log_err
    else log_info

-- The `switch` on the rate.
unfoldable pub speed_of : ℤ → Option Speed
speed_of baud =
    if eqb_ℤ baud (pos 9600)
    then some b9600
    else if eqb_ℤ baud (pos 19200)
    then some b19200
    else if eqb_ℤ baud (pos 38400)
    then some b38400
    else if eqb_ℤ baud (pos 57600)
    then some b57600
    else if eqb_ℤ baud (pos 115200)
    then some b115200
    else none

-- The number, if there is one, it is in the range of `long`, and the text ends behind it.
abbrev pub whole_number : Converted → Option ℤ
whole_number unconverted = none
whole_number (converted v true rest) = none
whole_number (converted v false []) = some v
whole_number (converted v false (c ∷ rest)) = none

abbrev pub speed_of_number : Option ℤ → Option Speed
speed_of_number none = none
speed_of_number (some baud) = speed_of baud

-- `INTERVAL_MIN` and `INTERVAL_MAX`
abbrev pub interval_min : ℤ
interval_min = pos 1

abbrev pub interval_max : ℤ
interval_max = pos 3600

abbrev interval_or : Option ℤ → ℤ → ℤ
interval_or none default_interval = default_interval
interval_or (some tmp) default_interval =
    if ltb_ℤ tmp interval_min || ltb_ℤ interval_max tmp then default_interval else tmp

-- An option that is copied as it is, if it is there.
abbrev copied_or : Option Bytes → Bytes → Bytes
copied_or none old = old
copied_or (some text) old = safe_strncpy config_string_len text

abbrev speed_or : Option Speed → Speed → Speed
speed_or none old = old
speed_or (some new) old = new

-- What the UCI library answers, up to the options of the section `settings`.
pub data Uci : Type 0 where
  no_context not_loaded not_found no_section : Uci
  settings : (String → Option Bytes) → Uci

module _ (long_max : ℕ) where
  -- `some b` for the result 0.
  unfoldable pub config_parse_baud_rate : Option Bytes → Option Speed
  unfolding speed_of
  config_parse_baud_rate none = none
  config_parse_baud_rate (some baud_str) = speed_of_number (whole_number (strtol long_max baud_str))

  read_interval : Option Bytes → ℤ → ℤ
  read_interval none old = old
  read_interval (some interval_str) old =
      interval_or (whole_number (strtol long_max interval_str)) old

  read_port : Option Bytes → Bytes → Bytes
  read_port none old = old
  read_port (some port) old =
      if validate_serial_port (some port) then safe_strncpy config_string_len port else old

  unfoldable pub read_settings : (String → Option Bytes) → Config → Config
  unfolding read_interval read_port config_parse_baud_rate
  read_settings option c = record {
    serial_port = read_port (option "serial_port") c.serial_port;
    interval = read_interval (option "interval") c.interval;
    baud_rate = speed_or (config_parse_baud_rate (option "baud_rate")) c.baud_rate;
    error_value = copied_or (option "error_value") c.error_value;
    log_level = copied_or (option "log_level") c.log_level;
    temp_modem_prefix = copied_or (option "temp_modem_prefix") c.temp_modem_prefix;
    temp_ap_prefix = copied_or (option "temp_ap_prefix") c.temp_ap_prefix;
    temp_pa_prefix = copied_or (option "temp_pa_prefix") c.temp_pa_prefix;
  }

  -- The flag is `true` for the result 0. `config` is the settings before the call, NULL if `none`.
  unfoldable pub config_read_uci : Uci → Option Config → Bool × Option Config
  unfolding read_settings config_set_defaults
  config_read_uci uci none = (false, none)
  config_read_uci no_context (some config) = (false, some config_set_defaults)
  config_read_uci not_loaded (some config) = (false, some config_set_defaults)
  config_read_uci not_found (some config) = (false, some config_set_defaults)
  config_read_uci no_section (some config) = (true, some config_set_defaults)
  config_read_uci (settings option) (some config) =
      (true, some (read_settings option config_set_defaults))

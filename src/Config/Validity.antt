-- ===== src/Config/Validity.antt =====
-- src/config.c: which settings a read of UCI leaves.
use Prim.Native.String.{String}
use quectel_rm520n_thermal.Base.{
  ℕ, ◌≤◌, ◌≡◌, refl, ℤ, ◌≤ℤ◌, Bool-cases, Option, none, some, arith, length, length-take, inl, inr,
}
use quectel_rm520n_thermal.CString.{Bytes, strtol, starts_with, contains}
use quectel_rm520n_thermal.Config.{
  config_string_len, contains_any, safe_strncpy, Config, validate_serial_port, config_set_defaults,
  Uci, no_context, not_loaded, not_found, no_section, settings, read_settings, read_port,
  read_interval, copied_or, interval_min, interval_max, interval_or, whole_number, config_read_uci,
}
use quectel_rm520n_thermal.Config.Port.{IsSafe, validate_serial_port_iff, safe_strncpy-IsSafe}

-- The text and its NUL fit the field.
abbrev pub Fits : Bytes → Type 0
Fits s = length s ≤ 63

pub record IsValid (c : Config) : Type 0 where
  pub port : IsSafe c.serial_port
  pub interval_low : interval_min ≤ℤ c.interval
  pub interval_high : c.interval ≤ℤ interval_max
  pub port_fits : Fits c.serial_port
  pub error_value_fits : Fits c.error_value
  pub log_level_fits : Fits c.log_level
  pub modem_fits : Fits c.temp_modem_prefix
  pub ap_fits : Fits c.temp_ap_prefix
  pub pa_fits : Fits c.temp_pa_prefix

pub config_set_defaults-IsValid : IsValid config_set_defaults
unfolding config_set_defaults starts_with contains contains_any
config_set_defaults-IsValid = record {
  port = record { device = refl; no_traversal = refl; no_metacharacter = refl };
  interval_low = omega arith;
  interval_high = omega arith;
  port_fits = omega arith;
  error_value_fits = omega arith;
  log_level_fits = omega arith;
  modem_fits = omega arith;
  ap_fits = omega arith;
  pa_fits = omega arith;
}

safe_strncpy-Fits : (s : Bytes) → Fits (safe_strncpy config_string_len s)
safe_strncpy-Fits s = omega (arith, length-take 63 s)

copied_or-Fits : (o : Option Bytes) (old : Bytes) → Fits old → Fits (copied_or o old)
copied_or-Fits none old h = h
copied_or-Fits (some s) old h = safe_strncpy-Fits s

module _ (long_max : ℕ) where
  read_port-IsSafe :
      (o : Option Bytes) (old : Bytes)
      → IsSafe old
      → Fits old
      → IsSafe (read_port long_max o old) × Fits (read_port long_max o old)
  unfolding read_port
  read_port-IsSafe none old h f = (h, f)
  read_port-IsSafe (some port) old h f = elim (Bool-cases (validate_serial_port (some port))) [
    | inl e ↦
        rw e
          (safe_strncpy-IsSafe port ((validate_serial_port_iff port).0 e), safe_strncpy-Fits port)
    | inr e ↦ rw e (h, f)
  ]

  -- The range that the interval is kept in.
  abbrev Between : ℤ → Type 0
  Between v = (interval_min ≤ℤ v) × (v ≤ℤ interval_max)

  interval_or-Between : (n : Option ℤ) (old : ℤ) → Between old → Between (interval_or n old)
  interval_or-Between none old h = h
  interval_or-Between (some v) old h = ground arith

  read_interval-Between :
      (o : Option Bytes) (old : ℤ) → Between old → Between (read_interval long_max o old)
  unfolding read_interval
  read_interval-Between none old h = h
  read_interval-Between (some s) old h =
      interval_or-Between (whole_number (strtol long_max s)) old h

  read_settings-IsValid :
      (option : String → Option Bytes) (c : Config)
      → IsValid c
      → IsValid (read_settings long_max option c)
  unfolding read_settings
  read_settings-IsValid option c h =
      let port = read_port-IsSafe (option "serial_port") c.serial_port h.port h.port_fits in
      let interval =
        read_interval-Between (option "interval") c.interval (h.interval_low, h.interval_high) in
      record {
        port = port.0;
        interval_low = interval.0;
        interval_high = interval.1;
        port_fits = port.1;
        error_value_fits = copied_or-Fits (option "error_value") c.error_value h.error_value_fits;
        log_level_fits = copied_or-Fits (option "log_level") c.log_level h.log_level_fits;
        modem_fits = copied_or-Fits (option "temp_modem_prefix") c.temp_modem_prefix h.modem_fits;
        ap_fits = copied_or-Fits (option "temp_ap_prefix") c.temp_ap_prefix h.ap_fits;
        pa_fits = copied_or-Fits (option "temp_pa_prefix") c.temp_pa_prefix h.pa_fits;
      }

  -- Whatever UCI holds and whatever the settings were, a read leaves settings with a safe port, an
  -- interval of 1 to 3600 seconds, and texts that fit their fields.
  pub config_read_uci-IsValid :
      (uci : Uci) (old : Config)
      → (c : Config) × ((config_read_uci long_max uci (some old)).1 ≡ some c) × IsValid c
  unfolding config_read_uci
  config_read_uci-IsValid no_context old = (config_set_defaults, refl, config_set_defaults-IsValid)
  config_read_uci-IsValid not_loaded old = (config_set_defaults, refl, config_set_defaults-IsValid)
  config_read_uci-IsValid not_found old = (config_set_defaults, refl, config_set_defaults-IsValid)
  config_read_uci-IsValid no_section old = (config_set_defaults, refl, config_set_defaults-IsValid)
  config_read_uci-IsValid (settings option) old = (
    read_settings long_max option config_set_defaults,
    refl,
    read_settings-IsValid option config_set_defaults config_set_defaults-IsValid,
  )

-- A read does not depend on the settings that it replaces.
pub config_read_uci_fresh :
    (long_max : ℕ) (uci : Uci) (old old' : Config)
    → config_read_uci long_max uci (some old) ≡ config_read_uci long_max uci (some old')
unfolding config_read_uci
config_read_uci_fresh m no_context old old' = refl
config_read_uci_fresh m _ old old' = refl

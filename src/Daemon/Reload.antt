-- ===== src/Daemon/Reload.antt =====
-- src/daemon.c: the check of the settings in the daemon's loop.
use quectel_rm520n_thermal.Base.{
  ℕ, ◌-◌, leb, eqb_ℤ, Bool, true, false, not, ◌&&◌, ◌||◌, if◌then◌else◌, Option, none, some, List,
  [], ◌∷◌, ◌++◌,
}
use quectel_rm520n_thermal.CString.{strcmp_eq}
use quectel_rm520n_thermal.Config.{
  Speed, b9600, b19200, b38400, b57600, b115200, Config, config_parse_log_level, config_read_uci,
}
use quectel_rm520n_thermal.Daemon.State.{
  config_check_interval, State, Round, Action, sets_threshold, closes, updates_modules,
}

abbrev pub speed_eq : Speed → Speed → Bool
speed_eq b9600 b9600 = true
speed_eq b19200 b19200 = true
speed_eq b38400 b38400 = true
speed_eq b57600 b57600 = true
speed_eq b115200 b115200 = true
speed_eq _ _ = false

unfoldable pub port_changed : Config → Config → Bool
unfolding strcmp_eq
port_changed previous config =
    not (strcmp_eq previous.serial_port config.serial_port)
    || not (speed_eq previous.baud_rate config.baud_rate)

unfoldable pub config_changed : Config → Config → Bool
unfolding port_changed
config_changed previous config =
    port_changed previous config
    || not (eqb_ℤ previous.interval config.interval)
    || not (strcmp_eq previous.log_level config.log_level)
    || not (strcmp_eq previous.temp_modem_prefix config.temp_modem_prefix)
    || not (strcmp_eq previous.temp_ap_prefix config.temp_ap_prefix)
    || not (strcmp_eq previous.temp_pa_prefix config.temp_pa_prefix)

unfoldable pub change_actions : Config → Config → Bool → List Action
unfolding config_parse_log_level port_changed
change_actions previous config is_open =
    (if strcmp_eq previous.log_level config.log_level
      then []
      else sets_threshold (config_parse_log_level (some config.log_level)) ∷ [])
    ++ ((if port_changed previous config && is_open then closes ∷ [] else [])
        ++ updates_modules ∷ [])

-- The state behind the check of the settings, `loop_config`, and what was done.
unfoldable pub reloaded : Bool × Option Config → State → State × Config × List Action
unfolding change_actions config_changed
reloaded (ok, none) s = (s, s.config, [])
reloaded (false, some config) s = (record s { config = config }, s.config, [])
reloaded (true, some config) s =
    if config_changed s.config config
    then (
      record s {
        config = config;
        is_open = if port_changed s.config config then false else s.is_open;
      },
      config,
      change_actions s.config config s.is_open,
    )
    else (record s { config = config }, s.config, [])

abbrev pub checked : ℕ → State × Config × List Action → State × Config × List Action
checked now (s, loop_config, done) = (record s { last_config_check = now }, loop_config, done)

module _ (long_max : ℕ) where
  unfoldable pub reload : Round → State → State × Config × List Action
  unfolding reloaded config_read_uci
  reload r s =
      if leb config_check_interval (r.now - s.last_config_check)
      then checked r.now (reloaded (config_read_uci long_max r.uci (some s.config)) s)
      else (s, s.config, [])

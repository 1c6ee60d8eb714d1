-- ===== src/Cli/Settings.antt =====
-- `cli_mode` of src/cli.c: the settings behind a call.
use quectel_rm520n_thermal.Base.{
  ℕ, ◌-◌, ◌≡◌, refl, inl, inr, ℤ, pos, eqb_ℤ, Bool, true, false, Option, none, some, [], ◌∷◌, take,
  leb, length, Bool-cases,
}
use quectel_rm520n_thermal.CString.{Bytes, print_int}
use quectel_rm520n_thermal.Config.{
  Config, Uci, no_context, not_loaded, not_found, no_section, settings, config_read_uci,
}
use quectel_rm520n_thermal.Config.Validity.{IsValid, config_read_uci-IsValid}
use quectel_rm520n_thermal.Lock.{Files, check_daemon_running}
use quectel_rm520n_thermal.Serial.{Answer, pending, minus_one, answered, c_string, send_at_command}
use quectel_rm520n_thermal.Serial.Tty.{Termios}
use quectel_rm520n_thermal.System.{path_max_len, find_quectel_hwmon_path}
use quectel_rm520n_thermal.Temperature.{Triple, extract_temp_values, select_best_temperature}
use quectel_rm520n_thermal.Daemon.State.{max_response}
use quectel_rm520n_thermal.Daemon.Loop.{at_command, value_or_zero, all_wanted, prefixes}
use quectel_rm520n_thermal.Cli.{
  Scene, Globals, Read, read, waits, not_available, config_or, Tried, usable, useless, hwmon_tried,
  on_best, on_extracted, on_answer, on_port, direct, on_hwmon, on_temp, from_daemon, on_running,
  reloaded, cli_mode,
}

abbrev pub HasConfig : Config → Read → Type 0
HasConfig c (read code text g) = g.config ≡ c
HasConfig c (waits g) = g.config ≡ c

module _ (long_max temp_size : ℕ) where
  on_best-HasConfig :
      (best : Option ℤ) (g : Globals) → HasConfig g.config (on_best long_max temp_size best g)
  unfolding on_best
  on_best-HasConfig none g = refl
  on_best-HasConfig (some v) g = elim (Bool-cases (leb temp_size (length (print_int v [])))) [
    | inl long ↦ rw long refl
    | inr short ↦ rw short refl
  ]

  on_answer-HasConfig :
      (a : Answer) (temp_str : Bytes) (g : Globals)
      → HasConfig g.config (on_answer long_max temp_size a temp_str g)
  unfolding on_answer
  on_answer-HasConfig pending temp_str g = refl
  on_answer-HasConfig minus_one temp_str g = refl
  on_answer-HasConfig (answered []) temp_str g = refl
  on_answer-HasConfig (answered (c ∷ cs)) temp_str g =
      extracted
        (extract_temp_values long_max (some (c_string (c ∷ cs))) all_wanted (prefixes g.config))
    where
      extracted :
          (x : Bool × Triple (Option ℤ)) → HasConfig g.config (on_extracted long_max temp_size x g)
      extracted (false, t) = refl
      extracted (true, t) =
          on_best-HasConfig
            (select_best_temperature (value_or_zero t.modem) (value_or_zero t.ap)
              (value_or_zero t.pa) true)
            g

  on_port-HasConfig :
      (sc : Scene) (port : Option Termios) (temp_str : Bytes) (g : Globals)
      → HasConfig g.config (on_port long_max temp_size sc port temp_str g)
  unfolding on_port
  on_port-HasConfig sc none temp_str g = refl
  on_port-HasConfig sc (some tty) temp_str g =
      on_answer-HasConfig (send_at_command true (some at_command) true max_response sc.exchange)
        temp_str g

  on_hwmon-HasConfig :
      (sc : Scene) (x : Tried) (g : Globals)
      → HasConfig g.config (on_hwmon long_max temp_size sc x g)
  unfolding on_hwmon direct
  on_hwmon-HasConfig sc (usable text) g = refl
  on_hwmon-HasConfig sc (useless temp_str) g = on_port-HasConfig sc _ temp_str g

  on_temp-HasConfig :
      (sc : Scene) (x : Tried) (g : Globals)
      → HasConfig g.config (on_temp long_max temp_size sc x g)
  unfolding on_temp
  on_temp-HasConfig sc (usable text) g = refl
  on_temp-HasConfig sc (useless temp_str) g =
      let found =
        find_quectel_hwmon_path long_max sc.device_readable sc.entries true path_max_len g.cache in
      on_hwmon-HasConfig sc (hwmon_tried temp_size sc.hwmon_file found.0 temp_str)
        (record g { cache = found.1 })

  on_running-HasConfig :
      (sc : Scene) (x : ℤ × Files) (temp_str : Bytes) (g : Globals)
      → HasConfig g.config (on_running long_max temp_size sc x temp_str g)
  unfolding on_running from_daemon direct
  on_running-HasConfig sc (running, files) temp_str g = elim (Bool-cases (eqb_ℤ running (pos 0))) [
    | inl stopped ↦ rw stopped (on_port-HasConfig sc _ temp_str (record g { files = files }))
    | inr runs ↦ rw runs (on_temp-HasConfig sc _ (record g { files = files }))
  ]

  pub cli_mode-HasConfig :
      (sc : Scene) (g : Globals)
      → HasConfig (reloaded long_max temp_size sc g).config (cli_mode long_max temp_size sc g)
  unfolding cli_mode
  cli_mode-HasConfig sc g =
      on_running-HasConfig sc (check_daemon_running sc.scan_int sc.alive g.files)
        (take (temp_size - 1) not_available) (reloaded long_max temp_size sc g)

  pub reloaded-IsValid :
      (sc : Scene) (g : Globals) → IsValid (reloaded long_max temp_size sc g).config
  unfolding reloaded
  reloaded-IsValid sc g =
      let (c, e, valid) = config_read_uci-IsValid long_max sc.uci g.config in rw e valid

-- What is read does not depend on the settings before.
pub config_read_uci_same :
    (long_max : ℕ) (uci : Uci) (c d : Config)
    → config_or c (config_read_uci long_max uci (some c)).1
      ≡ config_or d (config_read_uci long_max uci (some d)).1
unfolding config_read_uci
config_read_uci_same m no_context c d = refl
config_read_uci_same m not_loaded c d = refl
config_read_uci_same m not_found c d = refl
config_read_uci_same m no_section c d = refl
config_read_uci_same m (settings option) c d = refl

-- ===== src/Cli.antt =====
-- src/cli.c: `cli_mode`, which reads one temperature, from the files of the kernel modules if the
-- daemon runs, and else from the modem. Its log is left out.
pub mod Reading
pub mod Printed
pub mod Direct
pub mod Settings
use quectel_rm520n_thermal.Base.{
  ℕ, ◌-◌, ℤ, pos, eqb_ℤ, leb, Bool, true, false, not, ◌&&◌, if◌then◌else◌, Option, none, some, List,
  [], ◌∷◌, length, take,
}
use quectel_rm520n_thermal.CString.{Bytes, codes, strcmp_eq, print_int}
use quectel_rm520n_thermal.Config.{Config, Uci, config_read_uci, config_set_defaults, safe_strncpy}
use quectel_rm520n_thermal.Lock.{Files, check_daemon_running}
use quectel_rm520n_thermal.Serial.{
  Answer, pending, minus_one, answered, Exchange, c_string, send_at_command,
}
use quectel_rm520n_thermal.Serial.Tty.{Termios, Device, Opened, init_serial_port}
use quectel_rm520n_thermal.System.{Entry, Cache, path_max_len, first_line, find_quectel_hwmon_path}
use quectel_rm520n_thermal.Temperature.{Triple, extract_temp_values, select_best_temperature}
use quectel_rm520n_thermal.Daemon.State.{max_response}
use quectel_rm520n_thermal.Daemon.Loop.{at_command, value_or_zero, all_wanted, prefixes}

pub data Code : Type 0 where
  cli_success cli_err_serial cli_err_other : Code

-- What one call meets: UCI, the processes, the two files of the daemon, the port and the modem. A file
-- that cannot be opened is `none`.
pub record Scene : Type 0 where
  pub uci : Uci
  pub scan_int : Bytes → Option ℤ  -- `fscanf(file, "%d", &pid)`
  pub alive : ℤ → Bool  -- `kill(pid, 0) == 0`
  pub temp_accessible : Bool  -- `access(path, R_OK) == 0`
  pub temp_file : Option Bytes
  pub device_readable : ℤ → Bool
  pub entries : Option (List Entry)
  pub hwmon_file : Bytes → Option Bytes
  pub device : Device
  pub exchange : Exchange

-- `config`, the cache of the hwmon search, and the files of the lock.
pub record Globals : Type 0 where
  pub config : Config
  pub cache : Cache
  pub files : Files

-- The result with `temp_str`, or none as long as the modem's answer is waited for.
pub data Read : Type 0 where
  read : Code → Bytes → Globals → Read
  waits : Globals → Read

abbrev pub not_available : Bytes
not_available = codes "N/A"

abbrev pub config_or : Config → Option Config → Config
config_or old none = old
config_or old (some new) = new

-- What a file of the daemon gives: a temperature, or what `temp_str` is behind it.
pub data Tried : Type 0 where
  usable : Bytes → Tried
  useless : Bytes → Tried

-- `fgets` into `temp_str`, and the test for a temperature.
unfoldable pub line_tried : Option Bytes → Bytes → Tried
unfolding strcmp_eq
line_tried none temp_str = useless temp_str
line_tried (some text) temp_str =
    if not (strcmp_eq text not_available) && not (strcmp_eq text (codes "0"))
    then usable text
    else useless text

-- A file, if it could be opened.
unfoldable pub file_tried : ℕ → Option Bytes → Bytes → Tried
unfolding line_tried first_line
file_tried temp_size none temp_str = useless temp_str
file_tried temp_size (some content) temp_str = line_tried (first_line temp_size content) temp_str

-- The file of the hwmon device, if its path was found.
unfoldable pub hwmon_tried : ℕ → (Bytes → Option Bytes) → Option Bytes → Bytes → Tried
unfolding file_tried
hwmon_tried temp_size hwmon_file none temp_str = useless temp_str
hwmon_tried temp_size hwmon_file (some hwmon_path) temp_str =
    file_tried temp_size (hwmon_file hwmon_path) temp_str

module _ (long_max temp_size : ℕ) where
  -- `SAFE_STRNCPY(temp_str, "N/A", temp_size)`
  abbrev pub failed : Code → Globals → Read
  failed code g = read code (safe_strncpy temp_size not_available) g

  unfoldable pub on_best : Option ℤ → Globals → Read
  on_best none g = failed cli_err_other g
  on_best (some best_temp_mdeg) g =
      let text = print_int best_temp_mdeg [] in
      if leb temp_size (length text) then failed cli_success g else read cli_success text g

  unfoldable pub on_extracted : Bool × Triple (Option ℤ) → Globals → Read
  unfolding on_best select_best_temperature
  on_extracted (false, t) g = failed cli_err_other g
  on_extracted (true, t) g =
      on_best
        (select_best_temperature (value_or_zero t.modem) (value_or_zero t.ap) (value_or_zero t.pa)
          true)
        g

  unfoldable pub on_answer : Answer → Bytes → Globals → Read
  unfolding on_extracted extract_temp_values c_string
  on_answer pending temp_str g = waits g
  on_answer minus_one temp_str g = read cli_err_serial temp_str g
  on_answer (answered []) temp_str g = read cli_err_serial temp_str g
  on_answer (answered (c ∷ cs)) temp_str g =
      on_extracted
        (extract_temp_values long_max (some (c_string (c ∷ cs))) all_wanted (prefixes g.config)) g

  unfoldable pub on_port : Scene → Option Termios → Bytes → Globals → Read
  unfolding on_answer send_at_command
  on_port sc none temp_str g = read cli_err_serial temp_str g
  on_port sc (some tty) temp_str g =
      on_answer (send_at_command true (some at_command) true max_response sc.exchange) temp_str g

  -- The direct AT command.
  unfoldable pub direct : Scene → Bytes → Globals → Read
  unfolding on_port init_serial_port
  direct sc temp_str g =
      on_port sc (init_serial_port (some g.config.serial_port) g.config.baud_rate sc.device 0).port
        temp_str g

  -- What follows on the two files.
  unfoldable pub on_hwmon : Scene → Tried → Globals → Read
  unfolding direct
  on_hwmon sc (usable text) g = read cli_success text g
  on_hwmon sc (useless temp_str) g = direct sc temp_str g

  unfoldable pub on_temp : Scene → Tried → Globals → Read
  unfolding on_hwmon hwmon_tried find_quectel_hwmon_path
  on_temp sc (usable text) g = read cli_success text g
  on_temp sc (useless temp_str) g =
      let (path, cache) =
        find_quectel_hwmon_path long_max sc.device_readable sc.entries true path_max_len g.cache in
      on_hwmon sc (hwmon_tried temp_size sc.hwmon_file path temp_str) (record g { cache = cache })

  unfoldable pub from_daemon : Scene → Bytes → Globals → Read
  unfolding on_temp file_tried
  from_daemon sc temp_str g =
      on_temp sc
        (if sc.temp_accessible
          then file_tried temp_size sc.temp_file temp_str
          else useless temp_str)
        g

  unfoldable pub on_running : Scene → ℤ × Files → Bytes → Globals → Read
  unfolding from_daemon direct
  on_running sc (running, files) temp_str g =
      let h = record g { files = files } in
      if eqb_ℤ running (pos 0) then direct sc temp_str h else from_daemon sc temp_str h

  -- The settings are those of the defaults where they cannot be read.
  unfoldable pub reloaded : Scene → Globals → Globals
  unfolding config_read_uci
  reloaded sc g = record g {
    config = config_or g.config (config_read_uci long_max sc.uci (some g.config)).1;
  }

  unfoldable pub cli_mode : Scene → Globals → Read
  unfolding on_running reloaded check_daemon_running
  cli_mode sc g =
      on_running sc (check_daemon_running sc.scan_int sc.alive g.files)
        (take (temp_size - 1) not_available) (reloaded sc g)

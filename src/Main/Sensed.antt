-- ===== src/Main/Sensed.antt =====
-- From the pieces in which the modem sends its answer to what src/cli.c and src/main.c give.
use quectel_rm520n_thermal.Base.{
  ℕ, ◌+◌, ◌<◌, ◌≡◌, ◌≢◌, ◌≤◌, ◌⊎◌, ℤ, pos, ◌≤ℤ◌, scale, true, if◌then◌else◌, Option, some, List, [],
  ◌∷◌,
}
use quectel_rm520n_thermal.CString.{Bytes, print_int}
use quectel_rm520n_thermal.Config.{Config}
use quectel_rm520n_thermal.Kmod.Defs.{Kernel}
use quectel_rm520n_thermal.Kmod.Printed.{ReadsPrinted}
use quectel_rm520n_thermal.Kmod.Sysfs
use quectel_rm520n_thermal.Lock.{check_daemon_running}
use quectel_rm520n_thermal.Serial.Tty.{Termios, init_serial_port}
use quectel_rm520n_thermal.Temperature.{Triple, select_best_temperature}
use quectel_rm520n_thermal.Temperature.Response.{Reading}
use quectel_rm520n_thermal.Daemon.State.{State, Round, Action, config_check_interval}
use quectel_rm520n_thermal.Daemon.Publish.{sysfs_path}
use quectel_rm520n_thermal.Daemon.Loop.{turn}
use quectel_rm520n_thermal.Daemon.Hearing.{Sends, Names, heard}
use quectel_rm520n_thermal.Cli.{Scene, Globals, read, cli_success, reloaded, cli_mode}
use quectel_rm520n_thermal.Cli.Direct.{PrintsInts, content_of}
use quectel_rm520n_thermal.Main.Options.{Flags, json_reading, plain_reading}
use quectel_rm520n_thermal.Main.Report.{temp_str_size, exited, Pass, read_once}
use quectel_rm520n_thermal.Main.Degrees.{read_once_degrees}
use quectel_rm520n_thermal.Main.Relay.{relayed}
use quectel_rm520n_thermal.Main.Written.{actions_of, performed}

-- The three names of the settings.
abbrev pub names_of : Config → Triple Bytes
names_of c = record { modem = c.temp_modem_prefix; ap = c.temp_ap_prefix; pa = c.temp_pa_prefix }

module _ (long_max : ℕ) (wide : 2147483647 ≤ long_max) where
  -- What the modem sends is what the tool shows while the daemon runs. Let the daemon have an open
  -- port, no check of the settings due, and be able to open the file of the sysfs module; let the
  -- modem send, in whatever pieces, in time and within the buffer, an answer of its documented form
  -- with valid temperatures under the three names of the settings, where one of the answer's names
  -- has "modem" in it, none has "ERROR", the values are C `int`s, no name holds a quote, the end of
  -- a line or a NUL, and those of the settings, of 1 to 125 bytes, begin with no digit, minus sign,
  -- comma or carriage return. Behind the daemon's round, wherever else it writes, the tool reads
  -- from that file the highest of the three temperatures, in millidegrees, unless that is 0.
  pub sensed :
      (ulong_mod temp_size : ℕ) (k : Kernel) (r : Round) (hwmon : Option Bytes) (s : State)
      (rs : List Reading) {modem ap pa : ℤ} (jiffies : List Action → ℕ) (m : Sysfs.Thresholds)
      (sc : Scene) (g : Globals)
      → PrintsInts k
      → ReadsPrinted k
      → 13 ≤ temp_size
      → r.now < s.last_config_check + config_check_interval
      → s.is_open ≡ true
      → r.opens_file sysfs_path ≡ true
      → Sends r.exchange rs
      → Names rs (names_of s.config) modem ap pa
      → select_best_temperature modem ap pa true ≢ some (pos 0)
      → (check_daemon_running sc.scan_int sc.alive g.files).0 ≡ pos 1
      → sc.temp_accessible ≡ true
      → sc.temp_file
        ≡ content_of (
            Sysfs.show k Sysfs.temp true
              (performed k jiffies (actions_of (turn long_max ulong_mod hwmon r s)) m))
      → (best : ℤ) × ((scale 1000 modem ≤ℤ best)
          × (scale 1000 ap ≤ℤ best)
          × (scale 1000 pa ≤ℤ best))
        × ((best ≡ scale 1000 modem) ⊎ (best ≡ scale 1000 ap) ⊎ (best ≡ scale 1000 pa))
        × (cli_mode long_max temp_size sc g
            ≡ read cli_success (print_int best []) (record (reloaded long_max temp_size sc g) {
              files = (check_daemon_running sc.scan_int sc.alive g.files).1;
            }))
  sensed ulong_mod temp_size k r hwmon s rs jiffies m sc g prints reads roomy early port_open opens
        sends names nonzero runs access shows =
      let (codes, answers, extracts) =
        heard long_max r.exchange rs (names_of s.config) wide sends names in
      relayed long_max ulong_mod temp_size k r hwmon s b'\r' codes jiffies m sc g prints reads roomy
        early port_open opens answers extracts nonzero runs access shows

  -- Without a daemon, `read --celsius` prints the highest of the three temperatures, in degrees as
  -- the modem gives it, and ends with 0, if the port opens and the modem sends, in whatever pieces,
  -- in time and within the buffer, an answer of its documented form with valid temperatures under
  -- the three names of the settings, where one of the answer's names has "modem" in it, none has
  -- "ERROR", the values are C `int`s, no name holds a quote, the end of a line or a NUL, and those
  -- of the settings, of 1 to 125 bytes, begin with no digit, minus sign, comma or carriage return.
  pub sensed_degrees :
      (f : Flags) (p : Pass) (g : Globals) (tty : Termios) (rs : List Reading) {modem ap pa : ℤ}
      → f.celsius_output ≡ true
      → (check_daemon_running p.scene.scan_int p.scene.alive g.files).0 ≡ pos 0
      → let c = (reloaded long_max temp_str_size p.scene g).config in
        (init_serial_port (some c.serial_port) c.baud_rate p.scene.device 0).port ≡ some tty
        → Sends p.scene.exchange rs
        → Names rs (names_of c) modem ap pa
        → (d : ℤ) × ((modem ≤ℤ d) × (ap ≤ℤ d) × (pa ≤ℤ d))
          × ((d ≡ modem) ⊎ (d ≡ ap) ⊎ (d ≡ pa))
          × (read_once long_max f p g
              ≡ exited 0 (
                  (if f.json_output
                    then json_reading (print_int d []) true p.now
                    else plain_reading (print_int d []))
                  ∷ []))
  sensed_degrees f p g tty rs celsius stopped opens sends names =
      let c = (reloaded long_max temp_str_size p.scene g).config in
      let (codes, answers, extracts) =
        heard long_max p.scene.exchange rs (names_of c) wide sends names in
      read_once_degrees long_max wide f p g b'\r' codes tty celsius stopped opens answers extracts

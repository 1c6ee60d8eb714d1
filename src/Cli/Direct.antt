-- ===== src/Cli/Direct.antt =====
-- `cli_mode` of src/cli.c together with the daemon and the sysfs module.
use quectel_rm520n_thermal.Base.{
  ℕ, ◌-◌, ◌≤◌, ◌≡◌, ◌≢◌, refl, ap, ◌∙◌, ℤ, pos, leb, true, false, Option, none, some, [], ◌∷◌,
  length, take, arith,
}
use quectel_rm520n_thermal.CString.{Bytes, codes, print_int}
use quectel_rm520n_thermal.CString.Decimal.{print_int_short}
use quectel_rm520n_thermal.Kmod.Defs.{InRange, IsInt, Kernel, int_line, Shown, shown, unreadable}
use quectel_rm520n_thermal.System.{path_max_len, find_quectel_hwmon_path}
use quectel_rm520n_thermal.Kmod.Printed.{ReadsPrinted, printed_nonempty}
use quectel_rm520n_thermal.Kmod.Sysfs
use quectel_rm520n_thermal.Kmod.Sysfs.Writes as SysfsWrites
use quectel_rm520n_thermal.Lock.{check_daemon_running}
use quectel_rm520n_thermal.Serial.{answered, c_string, send_at_command}
use quectel_rm520n_thermal.Serial.Tty.{Termios, init_serial_port}
use quectel_rm520n_thermal.Temperature.{extract_temp_values, select_best_temperature}
use quectel_rm520n_thermal.Temperature.Bounds.{select_of_extract}
use quectel_rm520n_thermal.Daemon.State.{max_response}
use quectel_rm520n_thermal.Daemon.Loop.{at_command, all_wanted, prefixes}
use quectel_rm520n_thermal.Cli.{
  not_available, Scene, Globals, read, cli_success, hwmon_tried, on_hwmon, on_best, on_extracted,
  on_answer, on_port, direct, on_temp, from_daemon, on_running, reloaded, cli_mode,
}
use quectel_rm520n_thermal.Cli.Printed.{printed_tried, zero_tried}

-- `scnprintf` prints an `int` and a newline.
abbrev pub PrintsInts : Kernel → Type 0
PrintsInts k = (v : ℤ) → IsInt v → k.scnprintf k.page_size (int_line v) ≡ print_int v (b'\n' ∷ [])

-- What can be read of a file that a callback shows.
abbrev pub content_of : Shown → Option Bytes
content_of (shown content) = some content
content_of (unreadable e) = none

-- The file that shows the temperature, behind a write of `best` to it as the daemon writes it.
abbrev pub written_temp : Kernel → ℤ → ℕ → Sysfs.Thresholds → Option Bytes
written_temp k best jiffies s =
    let text = print_int best [] in
    content_of (
      Sysfs.show k Sysfs.temp true (Sysfs.store k Sysfs.temp (some text) (length text) jiffies s).1)

written_shown :
    (k : Kernel) (best : ℤ) (jiffies : ℕ) (s : Sysfs.Thresholds)
    → PrintsInts k
    → ReadsPrinted k
    → IsInt best
    → written_temp k best jiffies s ≡ some (print_int best (b'\n' ∷ []))
written_shown k best jiffies s prints reads int =
    let text = print_int best [] in
    rw
      (SysfsWrites.store_accepts k Sysfs.temp text (length text) jiffies s (printed_nonempty best)
        (reads best int) tt)
      (unfold Sysfs.show in ap some (prints best int))

module _ (long_max temp_size : ℕ) (sc : Scene) (g : Globals) where
  -- While the daemon runs, a number other than 0 in the file of the sysfs module is what is read.
  pub shown_read :
      (best : ℤ)
      → 13 ≤ temp_size
      → InRange best
      → best ≢ pos 0
      → (check_daemon_running sc.scan_int sc.alive g.files).0 ≡ pos 1
      → sc.temp_accessible ≡ true
      → sc.temp_file ≡ some (print_int best (b'\n' ∷ []))
      → cli_mode long_max temp_size sc g
        ≡ read cli_success (print_int best []) (record (reloaded long_max temp_size sc g) {
          files = (check_daemon_running sc.scan_int sc.alive g.files).1;
        })
  unfolding cli_mode on_running from_daemon on_temp
  shown_read best roomy range ne runs opens shows =
      rw
        (
          runs,
          opens,
          shows,
          printed_tried temp_size best (take (temp_size - 1) not_available) roomy (omega arith) ne,
        )
        refl

  -- While the daemon runs, a temperature other than 0 that it has written to the sysfs module is what
  -- the tool reads, with nothing asked of the modem.
  pub published_read :
      (k : Kernel) (best : ℤ) (jiffies : ℕ) (s : Sysfs.Thresholds)
      → PrintsInts k
      → ReadsPrinted k
      → 13 ≤ temp_size
      → InRange best
      → best ≢ pos 0
      → (check_daemon_running sc.scan_int sc.alive g.files).0 ≡ pos 1
      → sc.temp_accessible ≡ true
      → sc.temp_file ≡ written_temp k best jiffies s
      → cli_mode long_max temp_size sc g
        ≡ read cli_success (print_int best []) (record (reloaded long_max temp_size sc g) {
          files = (check_daemon_running sc.scan_int sc.alive g.files).1;
        })
  published_read k best jiffies s prints reads roomy range ne runs opens shows =
      shown_read best roomy range ne runs opens
        (shows ∙ written_shown k best jiffies s prints reads (omega arith))

  -- While no daemon runs, an answer of the modem that can be read gives the temperature that the
  -- daemon would select from it.
  pub answer_read :
      (code : ℕ) (codes : Bytes) (tty : Termios) {modem ap pa : ℤ}
      → 12 ≤ temp_size
      → (check_daemon_running sc.scan_int sc.alive g.files).0 ≡ pos 0
      → let c = (reloaded long_max temp_size sc g).config in
        (init_serial_port (some c.serial_port) c.baud_rate sc.device 0).port ≡ some tty
        → send_at_command true (some at_command) true max_response sc.exchange
          ≡ answered (code ∷ codes)
        → extract_temp_values long_max (some (c_string (code ∷ codes))) all_wanted (prefixes c)
          ≡ (true, record { modem = some modem; ap = some ap; pa = some pa })
        → (best : ℤ) × (select_best_temperature modem ap pa true ≡ some best)
          × (cli_mode long_max temp_size sc g
              ≡ read cli_success (print_int best []) (record (reloaded long_max temp_size sc g) {
                files = (check_daemon_running sc.scan_int sc.alive g.files).1;
              }))
  unfolding cli_mode on_running direct on_port on_answer on_extracted on_best
  answer_read code codes tty roomy stopped opens answers extracts =
      let c = (reloaded long_max temp_size sc g).config in
      let (best, selected, range) =
        select_of_extract long_max (c_string (code ∷ codes)) (prefixes c) extracts in
      let fits : leb temp_size (length (print_int best [])) ≡ false =
        ground (arith, print_int_short best [] (omega arith)) in
      (best, selected, rw (stopped, opens, answers, extracts, selected, fits) refl)

  asked :
      (path : Option Bytes) (h : Globals)
      → 13 ≤ temp_size
      → ((path : Bytes) → sc.hwmon_file path ≡ some (print_int (pos 0) (b'\n' ∷ [])))
      → on_hwmon long_max temp_size sc (hwmon_tried temp_size sc.hwmon_file path (codes "0")) h
        ≡ direct long_max temp_size sc (codes "0") h
  unfolding on_hwmon hwmon_tried
  asked none h roomy hwmon = refl
  asked (some path) h roomy hwmon = rw (hwmon path, zero_tried temp_size (codes "0") roomy) refl

  -- While the daemon runs and its temperature is 0, in the sysfs module and in the hwmon device, if
  -- there is one, the tool asks the modem, as it does without a daemon.
  pub published_zero_asks :
      (k : Kernel) (jiffies : ℕ) (s : Sysfs.Thresholds)
      → PrintsInts k
      → ReadsPrinted k
      → 13 ≤ temp_size
      → (check_daemon_running sc.scan_int sc.alive g.files).0 ≡ pos 1
      → sc.temp_accessible ≡ true
      → sc.temp_file ≡ written_temp k (pos 0) jiffies s
      → ((path : Bytes) → sc.hwmon_file path ≡ some (print_int (pos 0) (b'\n' ∷ [])))
      → cli_mode long_max temp_size sc g
        ≡ direct long_max temp_size sc (codes "0") (record (reloaded long_max temp_size sc g) {
          files = (check_daemon_running sc.scan_int sc.alive g.files).1;
          cache =
              (find_quectel_hwmon_path long_max sc.device_readable sc.entries true path_max_len
                (reloaded long_max temp_size sc g).cache).1;
        })
  unfolding cli_mode on_running from_daemon on_temp
  published_zero_asks k jiffies s prints reads roomy runs opens shows hwmon =
      rw
        (
          runs,
          opens,
          shows,
          written_shown k (pos 0) jiffies s prints reads (omega arith),
          zero_tried temp_size (take (temp_size - 1) not_available) roomy,
        )
        (asked _ _ roomy hwmon)

-- ===== src/Cli/Reading.antt =====
-- `cli_mode` of src/cli.c: where the text that it gives comes from.
use quectel_rm520n_thermal.Base.{
  ℕ, ◌-◌, ◌≤◌, ◌≡◌, ◌≢◌, ◌⊎◌, inl, inr, refl, ℤ, pos, eqb_ℤ, leb, Bool, true, false, if◌then◌else◌,
  Option, none, some, [], ◌∷◌, length, take, take-all, arith, Bool-cases,
}
use quectel_rm520n_thermal.CString.{Bytes, codes, strcmp_eq, print_int}
use quectel_rm520n_thermal.CString.Search.{strcmp_eq_iff}
use quectel_rm520n_thermal.CString.Decimal.{print_int_short}
use quectel_rm520n_thermal.Kmod.Defs.{InRange}
use quectel_rm520n_thermal.Lock.{Files, check_daemon_running}
use quectel_rm520n_thermal.Serial.{Answer, pending, minus_one, answered, c_string, send_at_command}
use quectel_rm520n_thermal.Serial.Tty.{Termios, init_serial_port}
use quectel_rm520n_thermal.System.{path_max_len, first_line, find_quectel_hwmon_path}
use quectel_rm520n_thermal.Temperature.{Triple, extract_temp_values, select_best_temperature}
use quectel_rm520n_thermal.Temperature.Bounds.{select_best_temperature_max}
use quectel_rm520n_thermal.Daemon.State.{max_response}
use quectel_rm520n_thermal.Daemon.Loop.{at_command, value_or_zero, all_wanted, prefixes}
use quectel_rm520n_thermal.Cli.{
  cli_success, cli_err_serial, cli_err_other, Scene, Globals, Read, read, waits, not_available,
  Tried, usable, useless, line_tried, file_tried, hwmon_tried, on_best, on_extracted, on_answer,
  on_port, direct, on_hwmon, on_temp, from_daemon, on_running, reloaded, cli_mode,
}

-- What stands for no temperature.
abbrev pub IsBlank : Bytes → Type 0
IsBlank text = (text ≡ not_available) ⊎ (text ≡ codes "0")

-- The first line of a file.
abbrev pub IsLine : ℕ → Option Bytes → Bytes → Type 0
IsLine temp_size file text =
    (content : Bytes) × (file ≡ some content) × (first_line temp_size content ≡ some text)

-- The print of a temperature that the kernel modules take.
abbrev pub IsPrinted : Bytes → Type 0
IsPrinted text = (v : ℤ) × InRange v × (text ≡ print_int v [])

abbrev pub IsOfDaemon : ℕ → Scene → Bytes → Type 0
IsOfDaemon temp_size sc text =
    (text ≢ not_available)
    × (text ≢ codes "0")
    × (IsLine temp_size sc.temp_file text
        ⊎ ((path : Bytes) × IsLine temp_size (sc.hwmon_file path) text))

-- What each result says of the text.
abbrev pub IsTraced : ℕ → Scene → Read → Type 0
IsTraced temp_size sc (read cli_success text g) = IsOfDaemon temp_size sc text ⊎ IsPrinted text
IsTraced temp_size sc (read cli_err_serial text g) = IsBlank text
IsTraced temp_size sc (read cli_err_other text g) = text ≡ not_available
IsTraced temp_size sc (waits g) = Unit

abbrev TriedIs : ℕ → Option Bytes → Tried → Type 0
TriedIs temp_size file (usable text) =
    (text ≢ not_available) × (text ≢ codes "0") × IsLine temp_size file text
TriedIs temp_size file (useless text) = IsBlank text

differs : (a b : Bytes) → strcmp_eq a b ≡ false → a ≢ b
differs a b h e = ground (arith, strcmp_eq_iff a b)

module _ (temp_size : ℕ) where
  line_tried-Is :
      (content : Bytes) (line : Option Bytes) (temp_str : Bytes)
      → first_line temp_size content ≡ line
      → IsBlank temp_str
      → TriedIs temp_size (some content) (line_tried line temp_str)
  unfolding line_tried
  line_tried-Is content none temp_str e blank = blank
  line_tried-Is content (some text) temp_str e blank =
      elim (Bool-cases (strcmp_eq text not_available)) [
        | inl same ↦ rw same (inl ((strcmp_eq_iff text not_available).0 same))
        | inr other ↦ elim (Bool-cases (strcmp_eq text (codes "0"))) [
          | inl same ↦ rw (other, same) (inr ((strcmp_eq_iff text (codes "0")).0 same))
          | inr another ↦
              rw (other, another)
                (
                  differs text not_available other,
                  differs text (codes "0") another,
                  (content, refl, e),
                )
        ]
      ]

  file_tried-Is :
      (file : Option Bytes) (temp_str : Bytes)
      → IsBlank temp_str
      → TriedIs temp_size file (file_tried temp_size file temp_str)
  unfolding file_tried
  file_tried-Is none temp_str blank = blank
  file_tried-Is (some content) temp_str blank =
      line_tried-Is content (first_line temp_size content) temp_str refl blank

module _ (long_max temp_size : ℕ) (roomy : 12 ≤ temp_size) where
  na_fits : take (temp_size - 1) not_available ≡ not_available
  na_fits = take-all (temp_size - 1) not_available (omega arith)

  on_best-IsTraced :
      (sc : Scene) (best : Option ℤ) (g : Globals)
      → ((v : ℤ) → best ≡ some v → InRange v)
      → IsTraced temp_size sc (on_best long_max temp_size best g)
  unfolding on_best
  on_best-IsTraced sc none g i = na_fits
  on_best-IsTraced sc (some v) g i =
      let range = i v refl in
      let fits : leb temp_size (length (print_int v [])) ≡ false =
        ground (arith, print_int_short v [] (omega arith)) in
      rw fits (inr (v, range, refl))

  on_extracted-IsTraced :
      (sc : Scene) (x : Bool × Triple (Option ℤ)) (g : Globals)
      → IsTraced temp_size sc (on_extracted long_max temp_size x g)
  unfolding on_extracted
  on_extracted-IsTraced sc (false, t) g = na_fits
  on_extracted-IsTraced sc (true, t) g =
      let m = value_or_zero t.modem in
      let a = value_or_zero t.ap in
      let p = value_or_zero t.pa in
      on_best-IsTraced sc (select_best_temperature m a p true) g
        (λ v e. (select_best_temperature_max m a p e).4)

  on_answer-IsTraced :
      (sc : Scene) (a : Answer) (temp_str : Bytes) (g : Globals)
      → IsBlank temp_str
      → IsTraced temp_size sc (on_answer long_max temp_size a temp_str g)
  unfolding on_answer
  on_answer-IsTraced sc pending temp_str g blank = tt
  on_answer-IsTraced sc minus_one temp_str g blank = blank
  on_answer-IsTraced sc (answered []) temp_str g blank = blank
  on_answer-IsTraced sc (answered (c ∷ cs)) temp_str g blank =
      on_extracted-IsTraced sc
        (extract_temp_values long_max (some (c_string (c ∷ cs))) all_wanted (prefixes g.config)) g

  on_port-IsTraced :
      (sc : Scene) (port : Option Termios) (temp_str : Bytes) (g : Globals)
      → IsBlank temp_str
      → IsTraced temp_size sc (on_port long_max temp_size sc port temp_str g)
  unfolding on_port
  on_port-IsTraced sc none temp_str g blank = blank
  on_port-IsTraced sc (some tty) temp_str g blank =
      on_answer-IsTraced sc (send_at_command true (some at_command) true max_response sc.exchange)
        temp_str g blank

  direct-IsTraced :
      (sc : Scene) (temp_str : Bytes) (g : Globals)
      → IsBlank temp_str
      → IsTraced temp_size sc (direct long_max temp_size sc temp_str g)
  unfolding direct
  direct-IsTraced sc temp_str g blank =
      on_port-IsTraced sc
        (init_serial_port (some g.config.serial_port) g.config.baud_rate sc.device 0).port temp_str
        g blank

  on_hwmon-IsTraced :
      (sc : Scene) (path : Bytes) (x : Tried) (g : Globals)
      → TriedIs temp_size (sc.hwmon_file path) x
      → IsTraced temp_size sc (on_hwmon long_max temp_size sc x g)
  unfolding on_hwmon
  on_hwmon-IsTraced sc path (usable text) g (na, zero, line) = inl (na, zero, inr (path, line))
  on_hwmon-IsTraced sc path (useless temp_str) g blank = direct-IsTraced sc temp_str g blank

  searched-IsTraced :
      (sc : Scene) (path : Option Bytes) (temp_str : Bytes) (g : Globals)
      → IsBlank temp_str
      → IsTraced temp_size sc
          (on_hwmon long_max temp_size sc (hwmon_tried temp_size sc.hwmon_file path temp_str) g)
  unfolding hwmon_tried
  searched-IsTraced sc none temp_str g blank = on_hwmon-IsTraced sc [] (useless temp_str) g blank
  searched-IsTraced sc (some path) temp_str g blank =
      on_hwmon-IsTraced sc path (file_tried temp_size (sc.hwmon_file path) temp_str) g
        (file_tried-Is temp_size (sc.hwmon_file path) temp_str blank)

  on_temp-IsTraced :
      (sc : Scene) (x : Tried) (g : Globals)
      → TriedIs temp_size sc.temp_file x
      → IsTraced temp_size sc (on_temp long_max temp_size sc x g)
  unfolding on_temp
  on_temp-IsTraced sc (usable text) g (na, zero, line) = inl (na, zero, inl line)
  on_temp-IsTraced sc (useless temp_str) g blank =
      let found =
        find_quectel_hwmon_path long_max sc.device_readable sc.entries true path_max_len g.cache in
      searched-IsTraced sc found.0 temp_str (record g { cache = found.1 }) blank

  accessed-Is :
      (file : Option Bytes) (accessible : Bool) (temp_str : Bytes)
      → IsBlank temp_str
      → TriedIs temp_size file
          (if accessible then file_tried temp_size file temp_str else useless temp_str)
  accessed-Is file true temp_str blank = file_tried-Is temp_size file temp_str blank
  accessed-Is file false temp_str blank = blank

  on_running-IsTraced :
      (sc : Scene) (x : ℤ × Files) (temp_str : Bytes) (g : Globals)
      → IsBlank temp_str
      → IsTraced temp_size sc (on_running long_max temp_size sc x temp_str g)
  unfolding on_running from_daemon
  on_running-IsTraced sc (running, files) temp_str g blank =
      let h = record g { files = files } in
      elim (Bool-cases (eqb_ℤ running (pos 0))) [
        | inl stopped ↦ rw stopped (direct-IsTraced sc temp_str h blank)
        | inr runs ↦
            rw runs
              (on_temp-IsTraced sc _ h (accessed-Is sc.temp_file sc.temp_accessible temp_str blank))
      ]

  -- A read that succeeds gives the first line of a file of the daemon, neither "N/A" nor "0", or the
  -- print of a temperature that the kernel modules take. One that fails gives "N/A", whatever the
  -- settings hold as `error_value`, or, if the port or the modem does not answer, "0" at most.
  pub cli_mode-IsTraced :
      (sc : Scene) (g : Globals) → IsTraced temp_size sc (cli_mode long_max temp_size sc g)
  unfolding cli_mode
  cli_mode-IsTraced sc g =
      on_running-IsTraced sc (check_daemon_running sc.scan_int sc.alive g.files)
        (take (temp_size - 1) not_available) (reloaded long_max temp_size sc g) (inl na_fits)

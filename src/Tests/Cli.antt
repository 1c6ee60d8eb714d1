-- ===== src/Tests/Cli.antt =====
-- src/cli.c at concrete files and answers.
use quectel_rm520n_thermal.Base.{ℕ, ◌≡◌, refl, ℤ, pos, neg, true, false, none, some, [], ◌∷◌, arith}
use quectel_rm520n_thermal.CString.{Bytes, codes, print_int, strtol}
use quectel_rm520n_thermal.CString.Decimal.{strtol-print_int}
use quectel_rm520n_thermal.Config.{no_section, config_set_defaults}
use quectel_rm520n_thermal.Kmod.Printed.{ReadsPrinted}
use quectel_rm520n_thermal.Kmod.Sysfs
use quectel_rm520n_thermal.Lock.{check_daemon_running}
use quectel_rm520n_thermal.Serial.{Exchange, got, readable}
use quectel_rm520n_thermal.Serial.Tty.{Termios, Device}
use quectel_rm520n_thermal.System.{path_max_len, find_quectel_hwmon_path}
use quectel_rm520n_thermal.Cli.{Scene, Globals, reloaded, cli_mode, direct}
use quectel_rm520n_thermal.Cli.Reading.{IsTraced, cli_mode-IsTraced}
use quectel_rm520n_thermal.Cli.Direct.{PrintsInts, written_temp, published_zero_asks}
use quectel_rm520n_thermal.Tests.Lock.{scan_int, no_files}
use quectel_rm520n_thermal.Tests.Platform.{kernel}

abbrev pub long_max : ℕ
long_max = 9223372036854775807

-- A terminal as it is found.
abbrev pub tty : Termios
tty = record {
  ospeed = none;
  ispeed = none;
  csize = 7;
  parenb = true;
  cstopb = false;
  clocal = false;
  cread = true;
  other_cflag = 0;
  ixon = true;
  ixoff = false;
  ixany = false;
  ignbrk = false;
  icrnl = true;
  igncr = false;
  other_iflag = 0;
  lflag = 35387;
  oflag = 5;
  vmin = 1;
  vtime = 0;
}

abbrev pub device : Device
device = record { opens = true; attributes = some tty; sets = true }

abbrev pub answer : Bytes
answer =
    codes "\r\n+QTEMP:\"modem-ambient-usr\",\"39\"\r\n+QTEMP:\"cpuss-0-usr\",\"45\"\r\n\r\nOK\r\n"

abbrev pub exchange : Exchange
exchange = record {
  command_written = true;
  end_written = true;
  start_time = 100;
  passes = record { shutdown = false; now = 101; waited = readable (got answer) } ∷ [];
}

abbrev best : ℤ
best = pos 45000

-- The daemon runs, and has written a temperature.
abbrev pub scene : Scene
scene = record {
  uci = no_section;
  scan_int = scan_int;
  alive = λ _. true;
  temp_accessible = true;
  temp_file = written_temp kernel best 100 Sysfs.initial;
  device_readable = λ _. true;
  entries = none;
  hwmon_file = λ _. none;
  device = device;
  exchange = exchange;
}

abbrev pub globals : Globals
globals = record {
  config = config_set_defaults;
  cache = record { device_num = neg 1; valid = false };
  files = record no_files { pid_file = some (codes "7\n") };
}

cli_mode-IsTraced_example : IsTraced 64 scene (cli_mode long_max 64 scene globals)
cli_mode-IsTraced_example = cli_mode-IsTraced long_max 64 (omega arith) scene globals

pub kernel-PrintsInts : PrintsInts kernel
kernel-PrintsInts v h = refl

pub kernel-ReadsPrinted : ReadsPrinted kernel
kernel-ReadsPrinted v h = rw (strtol-print_int 2147483647 v [] (omega arith) tt) refl

-- The daemon runs, and has written 0 degrees.
abbrev freezing : Scene
freezing = record scene {
  temp_file = written_temp kernel (pos 0) 100 Sysfs.initial;
  hwmon_file = λ _. some (codes "0\n");
}

published_zero_asks_example :
    cli_mode long_max 64 freezing globals
    ≡ direct long_max 64 freezing (codes "0") (record (reloaded long_max 64 freezing globals) {
      files = (check_daemon_running scan_int (λ _. true) globals.files).1;
      cache =
          (find_quectel_hwmon_path long_max
            (λ _. true)
            none
            true
            path_max_len
            (reloaded long_max 64 freezing globals).cache).1;
    })
published_zero_asks_example =
    published_zero_asks long_max 64 freezing globals kernel 100 Sysfs.initial kernel-PrintsInts
      kernel-ReadsPrinted (omega arith) (unfold check_daemon_running strtol in refl) refl refl
      (λ _. unfold print_int in refl)

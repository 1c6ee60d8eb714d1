-- ===== src/Tests/Sensed.antt =====
-- The way of a temperature from the modem to the tool at a concrete answer in two pieces.
use quectel_rm520n_thermal.Base.{
  ℕ, ◌^◌, ◌≡◌, ◌≢◌, ◌⊎◌, refl, ℤ, pos, ◌≤ℤ◌, scale, true, false, Option, none, some, List, [], ◌∷◌,
  arith,
}
use quectel_rm520n_thermal.CString.{
  Bytes, codes, print_int, isdigit, isspace, strcmp_eq, strtol, strstr, starts_with, contains,
}
use quectel_rm520n_thermal.Config.{b115200, not_loaded, config_set_defaults}
use quectel_rm520n_thermal.Kmod.Sysfs
use quectel_rm520n_thermal.Lock.{check_daemon_running}
use quectel_rm520n_thermal.Serial.{
  Exchange, idle, readable, got, would_block, validate_serial_params, read_modem_response,
}
use quectel_rm520n_thermal.Serial.Arrival.{IsWhole, read_modem_response-IsWhole}
use quectel_rm520n_thermal.Serial.Tty.{raw, init_serial_port}
use quectel_rm520n_thermal.Temperature.{select_best_temperature}
use quectel_rm520n_thermal.Temperature.Response.{Reading, print_answer}
use quectel_rm520n_thermal.Temperature.Pieces.{AreLines}
use quectel_rm520n_thermal.Temperature.Sent.{answer-IsHead}
use quectel_rm520n_thermal.Daemon.State.{State, Round, Action, start}
use quectel_rm520n_thermal.Daemon.Loop.{turn}
use quectel_rm520n_thermal.Daemon.Hearing.{Sends, Names}
use quectel_rm520n_thermal.Cli.{Scene, read, cli_success, reloaded, cli_mode}
use quectel_rm520n_thermal.Cli.Direct.{content_of}
use quectel_rm520n_thermal.Main.Options.{Flags, no_flags, plain_reading}
use quectel_rm520n_thermal.Main.Report.{Pass, exited, read_once}
use quectel_rm520n_thermal.Main.Written.{actions_of, performed}
use quectel_rm520n_thermal.Main.Sensed.{names_of, sensed, sensed_degrees}
use quectel_rm520n_thermal.Tests.Platform.{kernel}
use quectel_rm520n_thermal.Tests.Lock.{scan_int, none_alive}
use quectel_rm520n_thermal.Tests.Cli.{
  long_max, tty, scene, globals, kernel-PrintsInts, kernel-ReadsPrinted,
}

abbrev ulong_mod : ℕ
ulong_mod = 2 ^ 64

abbrev readings : List Reading
readings =
    record { name = codes "modem-ambient-usr"; value = pos 39 }
    ∷ record { name = codes "cpuss-0-usr"; value = pos 45 }
    ∷ record { name = codes "modem-lte-sub6-pa1"; value = pos 41 }
    ∷ []

-- The newline behind the OK comes on its own.
abbrev exchange : Exchange
exchange = record {
  command_written = true;
  end_written = true;
  start_time = 100;
  passes =
      record { shutdown = false; now = 100; waited = idle }
      ∷ record {
        shutdown = false;
        now = 101;
        waited = readable (got (print_answer readings (codes "\r\nOK")));
      }
      ∷ record { shutdown = false; now = 101; waited = readable would_block }
      ∷ record { shutdown = false; now = 102; waited = readable (got (codes "\r\n")) }
      ∷ [];
}

exchange-Sends : Sends exchange readings
unfolding print_int
exchange-Sends = record {
  command_written = refl;
  end_written = refl;
  timely = ground arith;
  all = refl;
  fits = omega arith;
}

readings-AreLines : AreLines readings
readings-AreLines = ground arith

read_modem_response-IsWhole_example :
    IsWhole 1024 100
      (print_answer readings (codes "\r\nOK"))
      (codes "\r\n")
      (read_modem_response true true 1024 100 exchange.passes)
unfolding print_int
read_modem_response-IsWhole_example =
    read_modem_response-IsWhole 1024 100 (print_answer readings (codes "\r\nOK")) (codes "\r\n")
      exchange.passes (unfold validate_serial_params in refl) exchange-Sends.timely (omega arith)
      refl (answer-IsHead readings readings-AreLines)

readings-Names : Names readings (names_of config_set_defaults) (pos 39) (pos 45) (pos 41)
unfolding config_set_defaults isdigit isspace strcmp_eq
readings-Names = record {
  modems = unfold contains strstr starts_with in record { modem = refl; error = refl };
  readings = ground arith;
  lines = readings-AreLines;
  modem_name = ground arith;
  ap_name = ground arith;
  pa_name = ground arith;
  modem_is = refl;
  ap_is = refl;
  pa_is = refl;
  modem_valid = omega arith;
  ap_valid = omega arith;
  pa_valid = omega arith;
}

abbrev round : Round
round = record {
  now = 10;
  uci = not_loaded;
  opens = true;
  exchange = exchange;
  opens_file = λ _. true;
  accessible = λ _. true;
  zones = none;
}

abbrev state : State
state = record (start config_set_defaults) { is_open = true }

abbrev jiffies : List Action → ℕ
jiffies _ = 100

-- The file of the module behind the round.
abbrev shown_file : Option Bytes
shown_file = content_of (
    Sysfs.show kernel Sysfs.temp true (
      performed kernel jiffies (actions_of (turn long_max ulong_mod none round state))
        Sysfs.initial))

abbrev after : Scene
after = record scene { temp_file = shown_file }

not_zero : select_best_temperature (pos 39) (pos 45) (pos 41) true ≢ some (pos 0)
unfolding select_best_temperature
not_zero e = cc e

sensed_example :
    (best : ℤ) × ((scale 1000 (pos 39) ≤ℤ best)
      × (scale 1000 (pos 45) ≤ℤ best)
      × (scale 1000 (pos 41) ≤ℤ best))
    × ((best ≡ scale 1000 (pos 39)) ⊎ (best ≡ scale 1000 (pos 45)) ⊎ (best ≡ scale 1000 (pos 41)))
    × (cli_mode long_max 64 after globals
        ≡ read cli_success (print_int best []) (record (reloaded long_max 64 after globals) {
          files = (check_daemon_running scan_int (λ _. true) globals.files).1;
        }))
sensed_example =
    sensed long_max (omega arith) ulong_mod 64 kernel round none state readings jiffies
      Sysfs.initial after globals kernel-PrintsInts kernel-ReadsPrinted (omega arith) (omega arith)
      refl refl exchange-Sends readings-Names not_zero (unfold check_daemon_running strtol in refl)
      refl refl

-- No daemon, and the modem answers.
abbrev alone : Pass
alone = record { scene = record scene { alive = λ _. false; exchange = exchange }; now = 5000 }

abbrev degrees : Flags
degrees = record no_flags { celsius_output = true }

opens_port :
    (init_serial_port
      (some (reloaded long_max 64 alone.scene globals).config.serial_port)
      (reloaded long_max 64 alone.scene globals).config.baud_rate
      alone.scene.device
      0).port
    ≡ some (raw b115200 tty)
unfolding reloaded config_set_defaults init_serial_port
opens_port = refl

alone-Names :
    Names readings
      (names_of (reloaded long_max 64 alone.scene globals).config)
      (pos 39)
      (pos 45)
      (pos 41)
unfolding reloaded
alone-Names = readings-Names

sensed_degrees_example :
    (d : ℤ) × ((pos 39 ≤ℤ d) × (pos 45 ≤ℤ d) × (pos 41 ≤ℤ d))
    × ((d ≡ pos 39) ⊎ (d ≡ pos 45) ⊎ (d ≡ pos 41))
    × (read_once long_max degrees alone globals ≡ exited 0 (plain_reading (print_int d []) ∷ []))
sensed_degrees_example =
    sensed_degrees long_max (omega arith) degrees alone globals (raw b115200 tty) readings refl
      (none_alive globals.files) opens_port exchange-Sends alone-Names

-- ===== src/Tests/Daemon.antt =====
-- src/daemon.c at concrete rounds.
use Prim.Native.String.{String}
use quectel_rm520n_thermal.Base.{
  if◌then◌else◌, ℕ, ◌^◌, ◌≡◌, refl, ℤ, pos, true, false, Option, none, some, List, [], ◌∷◌, ◌++◌,
  arith, length, All, All-append,
}
use quectel_rm520n_thermal.CString.{
  Bytes, codes, strcmp_eq, print_int, strtol, strstr, starts_with, contains,
}
use quectel_rm520n_thermal.CString.Decimal.{strtol-print_int}
use quectel_rm520n_thermal.Logging.{Log}
use quectel_rm520n_thermal.Daemon.Threshold.{is_debug, daemon_log, log_behind, done_of, ReadsLevel}
use quectel_rm520n_thermal.Daemon.Level.{daemon_threshold}
use quectel_rm520n_thermal.Config.{
  Config, settings, log_err, log_info, log_debug, config_parse_log_level, not_found, no_section,
  config_set_defaults, config_read_uci,
}
use quectel_rm520n_thermal.Config.Validity.{config_set_defaults-IsValid}
use quectel_rm520n_thermal.Serial.{c_string, send_at_command}
use quectel_rm520n_thermal.Temperature.{
  Triple, extract_single_temperature, extract_temp_values, select_best_temperature,
}
use quectel_rm520n_thermal.Kmod.Defs.{consumed}
use quectel_rm520n_thermal.Kmod.Printed.{ReadsPrinted}
use quectel_rm520n_thermal.Kmod.Sysfs
use quectel_rm520n_thermal.Kmod.Sysfs.Writes as SysfsWrites
use quectel_rm520n_thermal.Kmod.Hwmon
use quectel_rm520n_thermal.Kmod.Sensor
use quectel_rm520n_thermal.Kmod.Sensor.Laws as SensorLaws
use quectel_rm520n_thermal.Daemon.State.{Round}
use quectel_rm520n_thermal.Daemon.Loop.{all_wanted, prefixes, daemon_mode}
use quectel_rm520n_thermal.Daemon.Exit.{IsOrderly, daemon_mode-IsOrderly}
use quectel_rm520n_thermal.Daemon.Patience.{GivesUp, IsSilent, daemon_mode-GivesUp}
use quectel_rm520n_thermal.Daemon.Delivery.{selected_delivered}
use quectel_rm520n_thermal.Tests.Platform.{kernel}
use quectel_rm520n_thermal.Tests.Serial.{passes}

abbrev long_max : ℕ
long_max = 9223372036854775807

abbrev ulong_mod : ℕ
ulong_mod = 2 ^ 64

-- The modem answers, without temperatures.
abbrev answering : Round
answering = record {
  now = 10;
  uci = no_section;
  opens = true;
  exchange = record {
    command_written = true;
    end_written = true;
    start_time = 100;
    passes = passes;
  };
  opens_file = λ _. true;
  accessible = λ _. true;
  zones = none;
}

-- The port opens, and the command cannot be written.
abbrev silent : Round
silent = record answering {
  exchange = record { command_written = false; end_written = true; start_time = 100; passes = [] };
}

-- The port does not open.
abbrev no_port : Round
no_port = record silent { opens = false }

abbrev nine : List Round
nine = no_port ∷ silent ∷ silent ∷ no_port ∷ no_port ∷ silent ∷ silent ∷ silent ∷ no_port ∷ []

abbrev defaults : Config
defaults = config_set_defaults

daemon_mode-IsOrderly_example :
    IsOrderly (daemon_mode long_max ulong_mod none false true (answering ∷ nine) defaults)
daemon_mode-IsOrderly_example =
    daemon_mode-IsOrderly long_max ulong_mod none (answering ∷ nine) defaults
      config_set_defaults-IsValid

silent-IsSilent : IsSilent long_max defaults silent
silent-IsSilent = unfold send_at_command config_read_uci in (tt, refl)

no_port-IsSilent : IsSilent long_max defaults no_port
no_port-IsSilent = unfold send_at_command config_read_uci in (tt, refl)

nine-IsSilent : All (IsSilent long_max defaults) nine
nine-IsSilent = (
  no_port-IsSilent,
  (
    silent-IsSilent,
    (
      silent-IsSilent,
      (
        no_port-IsSilent,
        (
          no_port-IsSilent,
          (silent-IsSilent, (silent-IsSilent, (silent-IsSilent, (no_port-IsSilent, tt)))),
        ),
      ),
    ),
  ),
)

abbrev rounds : List Round
rounds = nine ++ (nine ++ nine)

rounds-IsSilent : All (IsSilent long_max defaults) rounds
rounds-IsSilent =
    All-append (IsSilent long_max defaults) nine (nine ++ nine) nine-IsSilent
      (All-append (IsSilent long_max defaults) nine nine nine-IsSilent nine-IsSilent)

daemon_mode-GivesUp_example :
    GivesUp ulong_mod long_max none (daemon_mode long_max ulong_mod none false true rounds defaults)
daemon_mode-GivesUp_example =
    daemon_mode-GivesUp ulong_mod long_max none rounds defaults rounds-IsSilent (omega arith)

-- What stands in the buffer behind an answer of the modem.
abbrev answer : Bytes
answer =
    codes "\r\n+QTEMP:\"modem-ambient-usr\",\"39\"\r\n+QTEMP:\"cpuss-0-usr\",\"45\"\r\n\r\nOK\r\n"

abbrev temperatures : Triple (Option ℤ)
temperatures = record { modem = some (pos 39); ap = some (pos 45); pa = some (pos 0) }

extracts :
    extract_temp_values long_max (some (c_string answer)) all_wanted (prefixes defaults)
    ≡ (true, temperatures)
unfolding extract_temp_values extract_single_temperature config_set_defaults strtol strstr
    starts_with contains c_string
extracts = refl

kernel-ReadsPrinted : ReadsPrinted kernel
kernel-ReadsPrinted v h = rw (strtol-print_int 2147483647 v [] (omega arith) tt) refl

abbrev hwmon_data : Hwmon.Data
hwmon_data = record { temp = pos 0; temp_min = pos 0; temp_max = pos 75000; temp_crit = pos 85000 }

selected_delivered_example :
    let text = print_int (pos 45000) [] in
    let count = length text in
    (Sysfs.store kernel Sysfs.temp (some text) count 100 Sysfs.initial
      ≡ (consumed count, SysfsWrites.put kernel Sysfs.temp (pos 45000) 100 Sysfs.initial))
    × (Hwmon.store kernel Hwmon.temp1_input (some text) count hwmon_data
        ≡ (consumed count, record hwmon_data { temp = pos 45000 }))
    × (Sensor.cur_temp_store kernel (some text) count SensorLaws.fresh
        ≡ (consumed count, record { cur_temp = pos 45000; zone_updates = pos 45000 ∷ [] }))
selected_delivered_example =
    selected_delivered kernel (pos 39) (pos 45) (pos 0) 100 Sysfs.initial hwmon_data
      SensorLaws.fresh kernel-ReadsPrinted (omega arith) (unfold select_best_temperature in refl)

abbrev unreadable : Round
unreadable = record answering { now = 1000; uci = not_found }

-- UCI has the level "error", and nothing else.
abbrev errors_only : String → Option Bytes
errors_only asked =
    if strcmp_eq (codes asked) (codes "log_level") then some (codes "error") else none

abbrev errors_wanted : Config
errors_wanted = record defaults { log_level = codes "error" }

abbrev reading : Round
reading = record answering { uci = settings errors_only }

reading-ReadsLevel : ReadsLevel long_max (codes "error") reading
unfolding config_read_uci strcmp_eq
reading-ReadsLevel c d e = cc

abbrev fresh_log : Log
fresh_log = record { to_syslog = false; to_stdio = true; threshold = log_err }

-- The level is "error", and the daemon logs from "info" on.
daemon_threshold_example :
    (log_behind
      (done_of (daemon_mode long_max ulong_mod none false true (reading ∷ []) errors_wanted))
      (daemon_log errors_wanted fresh_log)).threshold
    ≡ (if is_debug (config_parse_log_level (some (codes "error"))) then log_debug else log_info)
daemon_threshold_example =
    daemon_threshold long_max ulong_mod none (reading ∷ []) errors_wanted fresh_log
      (reading-ReadsLevel, tt)

-- ===== src/Main/Relay.antt =====
-- The whole way of a temperature: from the modem's answer through a round of the daemon of
-- src/daemon.c and the file of src/kmod/main.c to the tool of src/cli.c.
use quectel_rm520n_thermal.Base.{
  ℕ, ◌+◌, ◌-◌, ◌<◌, ◌≡◌, ◌≢◌, ◌≤◌, ◌⊎◌, refl, ◌∙◌, ap as cong, ℤ, pos, ◌≤ℤ◌, scale, leb, Bool, true,
  false, Option, some, List, [], ◌∷◌, arith,
}
use quectel_rm520n_thermal.CString.{Bytes, print_int}
use quectel_rm520n_thermal.Kmod.Defs.{IsInt, Kernel}
use quectel_rm520n_thermal.Kmod.Printed.{ReadsPrinted}
use quectel_rm520n_thermal.Kmod.Sysfs
use quectel_rm520n_thermal.Config.{Config}
use quectel_rm520n_thermal.Lock.{check_daemon_running}
use quectel_rm520n_thermal.Serial.{Answer, answered, c_string, send_at_command}
use quectel_rm520n_thermal.Temperature.{extract_temp_values, select_best_temperature}
use quectel_rm520n_thermal.Temperature.Bounds.{select_best_temperature_max}
use quectel_rm520n_thermal.Daemon.State.{State, Round, Action, config_check_interval, max_response}
use quectel_rm520n_thermal.Daemon.Reload.{reload}
use quectel_rm520n_thermal.Daemon.Port.{
  connected, count_iteration, count_success, connect, connect_from,
}
use quectel_rm520n_thermal.Daemon.Publish.{sysfs_path, publish}
use quectel_rm520n_thermal.Daemon.Loop.{
  Turn, rest_after, at_command, all_wanted, prefixes, on_reloaded, on_connected, on_answer, turn,
}
use quectel_rm520n_thermal.Daemon.Delivery.{answer_published}
use quectel_rm520n_thermal.Cli.{Scene, Globals, read, cli_success, reloaded, cli_mode}
use quectel_rm520n_thermal.Cli.Direct.{PrintsInts, content_of, shown_read}
use quectel_rm520n_thermal.Main.Written.{actions_of, performed, published}

shown_of :
    (k : Kernel) (m : Sysfs.Thresholds) (best : ℤ)
    → PrintsInts k
    → IsInt best
    → m.modem_temp ≡ best
    → content_of (Sysfs.show k Sysfs.temp true m) ≡ some (print_int best (b'\n' ∷ []))
unfolding Sysfs.show
shown_of k m best prints int holds = rw holds (cong some (prints best int))

connect_open :
    (ulong_mod : ℕ) (is_open opens : Bool) (c : Config) (s : State)
    → is_open ≡ true
    → connect_from ulong_mod is_open opens c s [] ≡ connected s []
unfolding connect_from
connect_open ulong_mod true opens c s e = refl
connect_open ulong_mod false opens c s e = cc

reload_quiet :
    (long_max : ℕ) (r : Round) (s : State)
    → r.now < s.last_config_check + config_check_interval
    → reload long_max r s ≡ (s, s.config, [])
unfolding reload
reload_quiet m r s early =
    let quiet : leb config_check_interval (r.now - s.last_config_check) ≡ false = ground arith in
    rw quiet refl

-- A round with an open port and no check of the settings asks the modem at once.
turn_asks :
    (long_max ulong_mod : ℕ) (r : Round) (hwmon : Option Bytes) (s : State) (a : Answer)
    → r.now < s.last_config_check + config_check_interval
    → s.is_open ≡ true
    → send_at_command true (some at_command) true max_response r.exchange ≡ a
    → turn long_max ulong_mod hwmon r s
      ≡ on_answer long_max ulong_mod hwmon r s.config a (count_iteration ulong_mod s) []
unfolding turn on_reloaded connect on_connected count_iteration
turn_asks m u r hwmon s a early port_open answers =
    cong (on_reloaded m u hwmon r) (reload_quiet m r (count_iteration u s) early)
    ∙ cong (on_connected m u hwmon r s.config)
        (connect_open u s.is_open r.opens s.config (count_iteration u s) port_open)
    ∙ cong (λ (x : Answer). on_answer m u hwmon r s.config x (count_iteration u s) []) answers

module _ (long_max ulong_mod temp_size : ℕ) (k : Kernel) where
  -- A round with an open port, no check of the settings, and an answer that can be read.
  turn_publishes :
      (r : Round) (hwmon : Option Bytes) (s : State) (code : ℕ) (codes : Bytes) {modem ap pa : ℤ}
      → r.now < s.last_config_check + config_check_interval
      → s.is_open ≡ true
      → send_at_command true (some at_command) true max_response r.exchange
        ≡ answered (code ∷ codes)
      → extract_temp_values long_max (some (c_string (code ∷ codes))) all_wanted (prefixes s.config)
        ≡ (true, record { modem = some modem; ap = some ap; pa = some pa })
      → (best : ℤ) × (select_best_temperature modem ap pa true ≡ some best)
        × (let (t, written) =
              publish r hwmon best (count_success ulong_mod (count_iteration ulong_mod s)) in
            turn long_max ulong_mod hwmon r s ≡ rest_after t written)
  turn_publishes r hwmon s code codes early port_open answers extracts =
      let (best, selected, range, (same, cleared)) =
        answer_published long_max ulong_mod hwmon r s.config code codes
          (count_iteration ulong_mod s) [] extracts in
      let asks =
        turn_asks long_max ulong_mod r hwmon s (answered (code ∷ codes)) early port_open answers in
      (best, selected, asks ∙ same)

  -- What the modem answers is what the tool shows while the daemon runs. Let the daemon have an open
  -- port and no check of the settings due, be able to open the file of the sysfs module, and get an
  -- answer that can be read. Behind its round, wherever else it writes, the tool reads from that file
  -- the highest of the three temperatures, in millidegrees, unless that is 0.
  pub relayed :
      (r : Round) (hwmon : Option Bytes) (s : State) (code : ℕ) (codes : Bytes) {modem ap pa : ℤ}
      (jiffies : List Action → ℕ) (m : Sysfs.Thresholds) (sc : Scene) (g : Globals)
      → PrintsInts k
      → ReadsPrinted k
      → 13 ≤ temp_size
      → r.now < s.last_config_check + config_check_interval
      → s.is_open ≡ true
      → r.opens_file sysfs_path ≡ true
      → send_at_command true (some at_command) true max_response r.exchange
        ≡ answered (code ∷ codes)
      → extract_temp_values long_max (some (c_string (code ∷ codes))) all_wanted (prefixes s.config)
        ≡ (true, record { modem = some modem; ap = some ap; pa = some pa })
      → select_best_temperature modem ap pa true ≢ some (pos 0)
      → (check_daemon_running sc.scan_int sc.alive g.files).0 ≡ pos 1
      → sc.temp_accessible ≡ true
      → sc.temp_file
        ≡ content_of (
            Sysfs.show k Sysfs.temp true
              (performed k jiffies (actions_of (turn long_max ulong_mod hwmon r s)) m))
      → (best : ℤ) × ((scale 1000 modem ≤ℤ best)
          × (scale 1000 ap ≤ℤ best)
          × (scale 1000 pa ≤ℤ best))
        × ((best ≡ scale 1000 modem) ⊎ (best ≡ scale 1000 ap) ⊎ (best ≡ scale 1000 pa))
        × (cli_mode long_max temp_size sc g
            ≡ read cli_success (print_int best []) (record (reloaded long_max temp_size sc g) {
              files = (check_daemon_running sc.scan_int sc.alive g.files).1;
            }))
  relayed r hwmon s code codes {modem} {ap} {pa} jiffies m sc g prints reads roomy early port_open
        opens answers extracts nonzero runs access shows =
      let (best, selected, same) =
        turn_publishes r hwmon s code codes early port_open answers extracts in
      let (hm, ha, hp, among, range) = select_best_temperature_max modem ap pa selected in
      let holds =
        cong (λ (x : Turn). (performed k jiffies (actions_of x) m).modem_temp) same
        ∙ published k reads jiffies best (omega arith) r hwmon
            (count_success ulong_mod (count_iteration ulong_mod s)) m _ opens in
      (
        best,
        (hm, ha, hp),
        among,
        shown_read long_max temp_size sc g best roomy range
            (λ zero. nonzero (selected ∙ cong some zero)) runs access
            (shows ∙ shown_of k _ best prints (omega arith) holds),
      )

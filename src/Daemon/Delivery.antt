-- ===== src/Daemon/Delivery.antt =====
-- The way of a temperature from the modem's answer through src/daemon.c to the kernel modules.
use quectel_rm520n_thermal.Base.{
  ℕ, ◌+◌, ◌-◌, ◌≤◌, ◌≡◌, refl, ℤ, true, false, Option, some, List, [], ◌∷◌, ◌++◌, arith, length,
  leb,
}
use quectel_rm520n_thermal.CString.{Bytes, print_int}
use quectel_rm520n_thermal.CString.Decimal.{print_int_short}
use quectel_rm520n_thermal.Config.{
  Config, Uci, no_context, not_loaded, not_found, no_section, settings, config_set_defaults,
  config_read_uci,
}
use quectel_rm520n_thermal.Serial.{answered, c_string}
use quectel_rm520n_thermal.Temperature.{extract_temp_values, select_best_temperature}
use quectel_rm520n_thermal.Temperature.Bounds.{select_of_extract, select_best_temperature_max}
use quectel_rm520n_thermal.Kmod.Defs.{InRange, Kernel, consumed}
use quectel_rm520n_thermal.Kmod.Sysfs
use quectel_rm520n_thermal.Kmod.Sysfs.Writes as SysfsWrites
use quectel_rm520n_thermal.Kmod.Hwmon
use quectel_rm520n_thermal.Kmod.Hwmon.Writes as HwmonWrites
use quectel_rm520n_thermal.Kmod.Sensor
use quectel_rm520n_thermal.Kmod.Sensor.Laws as SensorLaws
use quectel_rm520n_thermal.Daemon.State.{State, Round, Action, config_check_interval}
use quectel_rm520n_thermal.Daemon.Reload.{reloaded, reload}
use quectel_rm520n_thermal.Daemon.Port.{count_success}
use quectel_rm520n_thermal.Daemon.Publish.{publish}
use quectel_rm520n_thermal.Daemon.Loop.{
  rest_after, all_wanted, prefixes, on_best, on_extracted, on_answer,
}
use quectel_rm520n_thermal.Kmod.Printed.{ReadsPrinted, printed_nonempty}

module _ (long_max ulong_mod : ℕ) (hwmon : Option Bytes) where
  -- From an answer that can be read, the daemon writes the highest of the three temperatures, which is
  -- in the range of the hardware, and clears its count of failed cycles; then it rests for the
  -- interval of the settings.
  pub answer_published :
      (r : Round) (c : Config) (code : ℕ) (codes : Bytes) (s : State) (done : List Action)
      {modem ap pa : ℤ}
      → extract_temp_values long_max (some (c_string (code ∷ codes))) all_wanted (prefixes c)
        ≡ (true, record { modem = some modem; ap = some ap; pa = some pa })
      → (best : ℤ) × (select_best_temperature modem ap pa true ≡ some best)
        × InRange best
        × (let (t, written) = publish r hwmon best (count_success ulong_mod s) in
            (on_answer long_max ulong_mod hwmon r c (answered (code ∷ codes)) s done
              ≡ rest_after t (done ++ written))
            × (t.failed_cycles ≡ 0))
  unfolding on_answer on_extracted on_best publish count_success
  answer_published r c code codes s done {modem} {ap} {pa} e =
      let (best, selected, range) =
        select_of_extract long_max (c_string (code ∷ codes)) (prefixes c) e in
      (best, selected, range, (rw (e, selected) refl, refl))

-- A selected temperature, printed as the daemon prints it, is taken by all three kernel modules, and
-- each then holds it.
pub selected_delivered :
    (k : Kernel) (modem ap pa : ℤ) {best : ℤ} (jiffies : ℕ) (s : Sysfs.Thresholds) (d : Hwmon.Data)
    (t : Sensor.TempData)
    → ReadsPrinted k
    → 11 ≤ k.page_size
    → select_best_temperature modem ap pa true ≡ some best
    → let text = print_int best [] in
      let count = length text in
      (Sysfs.store k Sysfs.temp (some text) count jiffies s
        ≡ (consumed count, SysfsWrites.put k Sysfs.temp best jiffies s))
      × (Hwmon.store k Hwmon.temp1_input (some text) count d
          ≡ (consumed count, record d { temp = best }))
      × (Sensor.cur_temp_store k (some text) count t
          ≡ (consumed count, record { cur_temp = best; zone_updates = best ∷ t.zone_updates }))
selected_delivered k modem ap pa {best} jiffies s d t reads page e =
    let range = (select_best_temperature_max modem ap pa e).4 in
    let text = print_int best [] in
    let parses = reads best (omega arith) in
    let some_text = printed_nonempty best in
    let short = print_int_short best [] (omega arith) in
    (
      SysfsWrites.store_accepts k Sysfs.temp text (length text) jiffies s some_text parses tt,
      unfold Hwmon.commit in
          (HwmonWrites.store_commits_iff k Hwmon.temp1_input text (length text) d parses).1
            (some_text, omega arith, range),
      (SensorLaws.cur_temp_store_consumed_iff k text (length text) t parses).1
          (some_text, omega arith, range),
    )

failed_read :
    (long_max : ℕ) (uci : Uci) (c : Config)
    → (config_read_uci long_max uci (some c)).0 ≡ false
    → config_read_uci long_max uci (some c) ≡ (false, some config_set_defaults)
unfolding config_read_uci
failed_read m no_context c e = refl
failed_read m not_loaded c e = refl
failed_read m not_found c e = refl
failed_read m no_section c e = cc
failed_read m (settings option) c e = cc

-- Settings that cannot be read are replaced by the defaults, under which the daemon goes on with the
-- port that it has.
pub failed_reload_defaults :
    (long_max : ℕ) (r : Round) (s : State)
    → s.last_config_check + config_check_interval ≤ r.now
    → (config_read_uci long_max r.uci (some s.config)).0 ≡ false
    → let (t, loop_config, done) = reload long_max r s in
      (t.config ≡ config_set_defaults) × (t.is_open ≡ s.is_open) × (done ≡ [])
unfolding reload reloaded
failed_reload_defaults m r s h e =
    let late : leb config_check_interval (r.now - s.last_config_check) ≡ true = ground arith in
    rw (late, failed_read m r.uci s.config e) (refl, refl, refl)

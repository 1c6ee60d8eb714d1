-- ===== src/Daemon/Loop.antt =====
-- src/daemon.c: a round of the daemon's loop, and the loop.
use quectel_rm520n_thermal.Base.{
  ℕ, ◌+◌, ltb, leb, ℤ, pos, Bool, true, false, not, if◌then◌else◌, Option, none, some, List, [],
  ◌∷◌, ◌++◌,
}
use quectel_rm520n_thermal.CString.{Bytes, codes}
use quectel_rm520n_thermal.Config.{Config}
use quectel_rm520n_thermal.Serial.{Answer, pending, minus_one, answered, c_string, send_at_command}
use quectel_rm520n_thermal.Temperature.{Triple, extract_temp_values, select_best_temperature}
use quectel_rm520n_thermal.Daemon.State.{
  max_failed_cycles, max_response, State, start, Round, Action, closes, sleeps, releases_lock,
}
use quectel_rm520n_thermal.Daemon.Reload.{reload}
use quectel_rm520n_thermal.Daemon.Port.{
  Connected, connected, retries, exits, count_iteration, count_at_error, count_parse_error,
  count_success, connect,
}
use quectel_rm520n_thermal.Daemon.Publish.{publish}

-- `AT_COMMAND`
abbrev pub at_command : Bytes
at_command = codes "AT+QTEMP\r"

-- How a round ends: with another one, with the exit of the daemon, or not, as long as the modem's
-- answer is waited for.
pub data Turn : Type 0 where
  goes : State → List Action → Turn
  stops : State → List Action → Turn
  blocked : State → List Action → Turn

-- `sleep(config.interval)` at the end of a round.
abbrev pub rest_after : State → List Action → Turn
rest_after s done = goes s (done ++ sleeps s.config.interval ∷ [])

abbrev pub value_or_zero : Option ℤ → ℤ
value_or_zero none = pos 0
value_or_zero (some v) = v

abbrev pub all_wanted : Triple Bool
all_wanted = record { modem = true; ap = true; pa = true }

abbrev pub prefixes : Config → Triple (Option Bytes)
prefixes c = record {
  modem = some c.temp_modem_prefix;
  ap = some c.temp_ap_prefix;
  pa = some c.temp_pa_prefix;
}

-- How the daemon ends: with an exit status, or not yet.
pub data Outcome : Type 0 where
  returns : ℕ → State → List Action → Outcome
  waits : State → List Action → Outcome

module _ (long_max ulong_mod : ℕ) (hwmon : Option Bytes) where
  -- The port is closed behind the fourth failure in a row.
  unfoldable pub at_failed : State → List Action → Turn
  unfolding count_at_error
  at_failed s done =
      let t = count_at_error ulong_mod s in
      if ltb 3 (t.serial_reconnect_attempts + 1)
      then (let u = record t {
        failed_cycles = t.failed_cycles + 1;
        is_open = false;
        serial_reconnect_attempts = 0;
      } in
          if leb max_failed_cycles (t.failed_cycles + 1)
          then stops u (done ++ closes ∷ releases_lock ∷ [])
          else rest_after u (done ++ closes ∷ []))
      else rest_after (record t { serial_reconnect_attempts = t.serial_reconnect_attempts + 1 })
          done

  -- A round whose selection fails ends without a sleep.
  unfoldable pub on_best : Round → Option ℤ → State → List Action → Turn
  unfolding publish count_success count_parse_error
  on_best r none s done = goes (count_parse_error ulong_mod s) done
  on_best r (some best) s done =
      let (t, written) = publish r hwmon best (count_success ulong_mod s) in
      rest_after t (done ++ written)

  unfoldable pub on_extracted : Round → Bool × Triple (Option ℤ) → State → List Action → Turn
  unfolding on_best select_best_temperature count_parse_error
  on_extracted r (false, t) s done = rest_after (count_parse_error ulong_mod s) done
  on_extracted r (true, t) s done =
      on_best r
        (select_best_temperature (value_or_zero t.modem) (value_or_zero t.ap) (value_or_zero t.pa)
          true)
        s done

  unfoldable pub on_answer : Round → Config → Answer → State → List Action → Turn
  unfolding at_failed on_extracted extract_temp_values c_string
  on_answer r loop_config pending s done = blocked s done
  on_answer r loop_config minus_one s done = at_failed s done
  on_answer r loop_config (answered []) s done = at_failed s done
  on_answer r loop_config (answered (c ∷ cs)) s done =
      on_extracted r
        (extract_temp_values long_max (some (c_string (c ∷ cs))) all_wanted (prefixes loop_config))
        s done

  unfoldable pub on_connected : Round → Config → Connected → Turn
  unfolding on_answer send_at_command
  on_connected r loop_config (connected s done) =
      on_answer r loop_config (send_at_command true (some at_command) true max_response r.exchange)
        s done
  on_connected r loop_config (retries s done) = goes s done
  on_connected r loop_config (exits s done) = stops s done

  unfoldable pub on_reloaded : Round → State × Config × List Action → Turn
  unfolding on_connected connect
  on_reloaded r (s, loop_config, done) =
      on_connected r loop_config (connect ulong_mod r.opens loop_config s done)

  -- One round.
  unfoldable pub turn : Round → State → Turn
  unfolding on_reloaded reload count_iteration
  turn r s = on_reloaded r (reload long_max r (count_iteration ulong_mod s))

  -- Behind the last round the shutdown flag is set.
  unfoldable pub shut_down : State → List Action → Outcome
  shut_down s done =
      returns 0 (record s { is_open = false })
        (done ++ ((if s.is_open then closes ∷ [] else []) ++ releases_lock ∷ []))

  -- What the loop does behind a round; `loop` is the rest of it.
  abbrev pub behind : (State → List Action → Outcome) → Turn → List Action → Outcome
  behind loop (goes t more) done = loop t (done ++ more)
  behind loop (stops t more) done = returns 1 t (done ++ more)
  behind loop (blocked t more) done = waits t (done ++ more)

  unfoldable pub run : List Round → State → List Action → Outcome
  unfolding turn shut_down
  run [] s done = shut_down s done
  run (r ∷ rs) s done = behind (run rs) (turn r s) done

  -- The flags say that `check_daemon_running` finds a daemon, and that the lock is got.
  unfoldable pub daemon_mode : Bool → Bool → List Round → Config → Outcome
  unfolding run
  daemon_mode running locks rs config =
      if running
      then returns 3 (start config) []
      else if not locks
      then returns 3 (start config) []
      else run rs (start config) []

-- ===== src/Daemon/Counters.antt =====
-- The statistics of src/daemon.c, round by round.
use quectel_rm520n_thermal.Base.{
  ℕ, ◌+◌, ◌%◌, ◌≡◌, refl, ℤ, Bool, true, false, Option, none, some, List, [], ◌∷◌, arith, ◌⊎◌,
}
use quectel_rm520n_thermal.CString.{Bytes}
use quectel_rm520n_thermal.Config.{Config, config_read_uci}
use quectel_rm520n_thermal.Serial.{Answer, pending, minus_one, answered, c_string, send_at_command}
use quectel_rm520n_thermal.Temperature.{Triple, extract_temp_values, select_best_temperature}
use quectel_rm520n_thermal.Daemon.State.{max_response, Stats, State, Round, Action}
use quectel_rm520n_thermal.Daemon.Reload.{reloaded, reload}
use quectel_rm520n_thermal.Daemon.Port.{
  Connected, connected, retries, exits, count_iteration, count_serial_error, count_at_error,
  count_parse_error, count_success, open_failed, connect_from, connect,
}
use quectel_rm520n_thermal.Daemon.Publish.{publish}
use quectel_rm520n_thermal.Daemon.Loop.{
  at_command, Turn, goes, stops, blocked, value_or_zero, all_wanted, prefixes, at_failed, on_best,
  on_extracted, on_answer, on_connected, on_reloaded, turn,
}

module _ (long_max ulong_mod : ℕ) where
  -- The counters with one more of the errors, or one more success.
  abbrev pub one_more : ℕ → ℕ
  one_more n = (n + 1) % ulong_mod

  abbrev pub Counted : Stats → Stats → Type 0
  Counted x y =
      (y ≡ record x { serial_errors = one_more x.serial_errors })
      ⊎ (y ≡ record x { at_command_errors = one_more x.at_command_errors })
      ⊎ (y ≡ record x { parse_errors = one_more x.parse_errors })
      ⊎ (y ≡ record x { successful_reads = one_more x.successful_reads })

  abbrev pub TurnCounts : Stats → Turn → Type 0
  TurnCounts x (goes t done) = Counted x t.stats
  TurnCounts x (stops t done) = Counted x t.stats
  TurnCounts x (blocked t done) = t.stats ≡ x

  abbrev ConnectedCounts : Stats → Connected → Type 0
  ConnectedCounts x (connected t done) = t.stats ≡ x
  ConnectedCounts x (retries t done) = Counted x t.stats
  ConnectedCounts x (exits t done) = Counted x t.stats

  reloaded_keeps : (b : Bool × Option Config) (s : State) → (reloaded b s).0.stats ≡ s.stats
  unfolding reloaded
  reloaded_keeps (ok, none) s = refl
  reloaded_keeps (false, some c) s = refl
  reloaded_keeps (true, some c) s = ground arith

  reload_keeps : (r : Round) (s : State) → (reload long_max r s).0.stats ≡ s.stats
  unfolding reload
  reload_keeps r s =
      let kept = reloaded_keeps (config_read_uci long_max r.uci (some s.config)) s in ground arith

  open_failed_counts :
      (s : State) (done : List Action) → ConnectedCounts s.stats (open_failed ulong_mod s done)
  unfolding open_failed count_serial_error
  open_failed_counts s done = ground arith

  connect_counts :
      (is_open opens : Bool) (c : Config) (s : State) (done : List Action)
      → ConnectedCounts s.stats (connect_from ulong_mod is_open opens c s done)
  unfolding connect_from
  connect_counts true opens c s done = refl
  connect_counts false true c s done = refl
  connect_counts false false c s done = open_failed_counts s _

  module _ (hwmon : Option Bytes) where
    at_failed_counts :
        (s : State) (done : List Action)
        → TurnCounts s.stats (at_failed long_max ulong_mod hwmon s done)
    unfolding at_failed count_at_error
    at_failed_counts s done = ground arith

    on_best_counts :
        (r : Round) (best : Option ℤ) (s : State) (done : List Action)
        → TurnCounts s.stats (on_best long_max ulong_mod hwmon r best s done)
    unfolding on_best count_parse_error count_success publish
    on_best_counts r none s done = ground arith
    on_best_counts r (some best) s done = ground arith

    on_extracted_counts :
        (r : Round) (x : Bool × Triple (Option ℤ)) (s : State) (done : List Action)
        → TurnCounts s.stats (on_extracted long_max ulong_mod hwmon r x s done)
    unfolding on_extracted count_parse_error
    on_extracted_counts r (false, t) s done = ground arith
    on_extracted_counts r (true, t) s done =
        on_best_counts r
          (select_best_temperature (value_or_zero t.modem) (value_or_zero t.ap) (value_or_zero t.pa)
            true)
          s done

    on_answer_counts :
        (r : Round) (c : Config) (a : Answer) (s : State) (done : List Action)
        → TurnCounts s.stats (on_answer long_max ulong_mod hwmon r c a s done)
    unfolding on_answer
    on_answer_counts r c pending s done = refl
    on_answer_counts r c minus_one s done = at_failed_counts s done
    on_answer_counts r c (answered []) s done = at_failed_counts s done
    on_answer_counts r c (answered (d ∷ ds)) s done =
        on_extracted_counts r
          (extract_temp_values long_max (some (c_string (d ∷ ds))) all_wanted (prefixes c)) s done

    on_connected_counts :
        (r : Round) (c : Config) (x : Stats) (y : Connected)
        → ConnectedCounts x y
        → TurnCounts x (on_connected long_max ulong_mod hwmon r c y)
    unfolding on_connected
    on_connected_counts r c x (connected s done) h = rw⁻¹ h (
        on_answer_counts r c (send_at_command true (some at_command) true max_response r.exchange) s
          done)
    on_connected_counts r c x (retries s done) h = h
    on_connected_counts r c x (exits s done) h = h

    on_reloaded_counts :
        (r : Round) (x : Stats) (y : State × Config × List Action)
        → y.0.stats ≡ x
        → TurnCounts x (on_reloaded long_max ulong_mod hwmon r y)
    unfolding on_reloaded connect
    on_reloaded_counts r x (s, c, done) h =
        on_connected_counts r c x (connect_from ulong_mod s.is_open r.opens c s done)
          (rw⁻¹ h (connect_counts s.is_open r.opens c s done))

    -- A round that ends is counted once as an iteration, and once as an error of the port, an error of
    -- the command, an error of the parser, or a success.
    pub turn_counts :
        (r : Round) (s : State)
        → TurnCounts (count_iteration ulong_mod s).stats (turn long_max ulong_mod hwmon r s)
    unfolding turn
    turn_counts r s =
        on_reloaded_counts r (count_iteration ulong_mod s).stats
          (reload long_max r (count_iteration ulong_mod s))
          (reload_keeps r (count_iteration ulong_mod s))

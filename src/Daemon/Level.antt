-- ===== src/Daemon/Level.antt =====
-- The threshold of the log through the loop of src/daemon.c, while the settings have one level.
use quectel_rm520n_thermal.Base.{
  ℕ, ◌≡◌, refl, ap, ℤ, pos, Bool, true, false, if◌then◌else◌, Option, none, some, List, [], ◌∷◌,
  ◌++◌, arith, All,
}
use quectel_rm520n_thermal.CString.{Bytes}
use quectel_rm520n_thermal.Config.{
  log_debug, log_info, Config, config_parse_log_level, config_read_uci,
}
use quectel_rm520n_thermal.Logging.{Log, logging_init}
use quectel_rm520n_thermal.Serial.{Answer, pending, minus_one, answered, c_string, send_at_command}
use quectel_rm520n_thermal.Temperature.{Triple, extract_temp_values}
use quectel_rm520n_thermal.Daemon.State.{
  max_response, State, Round, Action, closes, releases_lock, sleeps, start,
}
use quectel_rm520n_thermal.Daemon.Reload.{reload}
use quectel_rm520n_thermal.Daemon.Port.{
  Connected, connected, retries, exits, count_iteration, count_serial_error, count_at_error,
  count_parse_error, count_success, open_failed, connect_from, connect,
}
use quectel_rm520n_thermal.Daemon.Publish.{publish}
use quectel_rm520n_thermal.Daemon.Loop.{
  at_command, Turn, goes, stops, blocked, all_wanted, prefixes, at_failed, on_best, on_extracted,
  on_answer, on_connected, on_reloaded, turn, behind, shut_down, run, daemon_mode,
}
use quectel_rm520n_thermal.Daemon.Threshold.{
  is_debug, daemon_log, log_behind, done_of, Leaves, Keeps, ConnectedKeeps, TurnKeeps, ReadsLevel,
  log_behind-Leaves, Leaves-append, publish-Leaves, reloaded-Keeps,
}

module _ (long_max ulong_mod : ℕ) (hwmon : Option Bytes) (level : Bytes) where
  reload-Keeps :
      (r : Round) (s : State)
      → ReadsLevel long_max level r
      → s.config.log_level ≡ level
      → Keeps level (reload long_max r s).0 (reload long_max r s).2
  unfolding reload
  reload-Keeps r s h e =
      let read =
        reloaded-Keeps level (config_read_uci long_max r.uci (some s.config)) s (h s.config) e in
      ground arith

  open_failed-Keeps :
      (s : State) (done : List Action)
      → Keeps level s done
      → ConnectedKeeps level (open_failed ulong_mod s done)
  unfolding open_failed count_serial_error
  open_failed-Keeps s done (e, h) =
      let slept = Leaves-append done (sleeps (pos s.reconnect_delay) ∷ []) h (tt, tt) in
      let released = Leaves-append done (releases_lock ∷ []) h (tt, tt) in ground arith

  connect-Keeps :
      (is_open opens : Bool) (c : Config) (s : State) (done : List Action)
      → Keeps level s done
      → ConnectedKeeps level (connect_from ulong_mod is_open opens c s done)
  unfolding connect_from
  connect-Keeps true opens c s done h = h
  connect-Keeps false true c s done (e, h) = (e, Leaves-append done _ h (tt, tt))
  connect-Keeps false false c s done (e, h) =
      open_failed-Keeps s _ (e, Leaves-append done _ h (tt, tt))

  at_failed-Keeps :
      (s : State) (done : List Action)
      → Keeps level s done
      → TurnKeeps level (at_failed long_max ulong_mod hwmon s done)
  unfolding at_failed count_at_error
  at_failed-Keeps s done (e, h) =
      let rested = Leaves-append done (sleeps s.config.interval ∷ []) h (tt, tt) in
      let closed = Leaves-append done (closes ∷ []) h (tt, tt) in
      let closed_rested =
        Leaves-append (done ++ closes ∷ []) (sleeps s.config.interval ∷ []) closed (tt, tt) in
      let released = Leaves-append done (closes ∷ releases_lock ∷ []) h (tt, (tt, tt)) in
      ground arith

  on_best-Keeps :
      (r : Round) (best : Option ℤ) (s : State) (done : List Action)
      → Keeps level s done
      → TurnKeeps level (on_best long_max ulong_mod hwmon r best s done)
  unfolding on_best count_parse_error count_success publish
  on_best-Keeps r none s done h = h
  on_best-Keeps r (some v) s done (e, h) =
      let t = count_success ulong_mod s in
      (e, Leaves-append _ _ (Leaves-append done _ h (publish-Leaves r hwmon v t)) (tt, tt))

  on_extracted-Keeps :
      (r : Round) (x : Bool × Triple (Option ℤ)) (s : State) (done : List Action)
      → Keeps level s done
      → TurnKeeps level (on_extracted long_max ulong_mod hwmon r x s done)
  unfolding on_extracted count_parse_error
  on_extracted-Keeps r (false, t) s done (e, h) = (e, Leaves-append done _ h (tt, tt))
  on_extracted-Keeps r (true, t) s done h = on_best-Keeps r _ s done h

  on_answer-Keeps :
      (r : Round) (c : Config) (a : Answer) (s : State) (done : List Action)
      → Keeps level s done
      → TurnKeeps level (on_answer long_max ulong_mod hwmon r c a s done)
  unfolding on_answer
  on_answer-Keeps r c pending s done h = h
  on_answer-Keeps r c minus_one s done h = at_failed-Keeps s done h
  on_answer-Keeps r c (answered []) s done h = at_failed-Keeps s done h
  on_answer-Keeps r c (answered (d ∷ ds)) s done h =
      on_extracted-Keeps r
        (extract_temp_values long_max (some (c_string (d ∷ ds))) all_wanted (prefixes c)) s done h

  on_connected-Keeps :
      (r : Round) (c : Config) (y : Connected)
      → ConnectedKeeps level y
      → TurnKeeps level (on_connected long_max ulong_mod hwmon r c y)
  unfolding on_connected
  on_connected-Keeps r c (connected s done) h =
      on_answer-Keeps r c (send_at_command true (some at_command) true max_response r.exchange) s
        done h
  on_connected-Keeps r c (retries s done) h = h
  on_connected-Keeps r c (exits s done) h = h

  on_reloaded-Keeps :
      (r : Round) (y : State × Config × List Action)
      → Keeps level y.0 y.2
      → TurnKeeps level (on_reloaded long_max ulong_mod hwmon r y)
  unfolding on_reloaded connect
  on_reloaded-Keeps r (s, c, done) h =
      on_connected-Keeps r c (connect_from ulong_mod s.is_open r.opens c s done)
        (connect-Keeps s.is_open r.opens c s done h)

  turn-Keeps :
      (r : Round) (s : State)
      → ReadsLevel long_max level r
      → s.config.log_level ≡ level
      → TurnKeeps level (turn long_max ulong_mod hwmon r s)
  unfolding turn count_iteration
  turn-Keeps r s h e =
      on_reloaded-Keeps r (reload long_max r (count_iteration ulong_mod s))
        (reload-Keeps r (count_iteration ulong_mod s) h e)

  behind-Keeps :
      (rs : List Round) (x : Turn) (done : List Action)
      → ((t : State) (acts : List Action)
          → Keeps level t acts
          → All Leaves (done_of (run long_max ulong_mod hwmon rs t acts)))
      → TurnKeeps level x
      → All Leaves done
      → All Leaves
          (done_of (behind long_max ulong_mod hwmon (run long_max ulong_mod hwmon rs) x done))
  behind-Keeps rs (goes t more) done ih (e, k) g =
      ih t (done ++ more) (e, Leaves-append done more g k)
  behind-Keeps rs (stops t more) done ih (e, k) g = Leaves-append done more g k
  behind-Keeps rs (blocked t more) done ih (e, k) g = Leaves-append done more g k

  run-Keeps :
      (rs : List Round) (s : State) (done : List Action)
      → All (ReadsLevel long_max level) rs
      → Keeps level s done
      → All Leaves (done_of (run long_max ulong_mod hwmon rs s done))
  unfolding run shut_down
  run-Keeps [] s done hs (e, g) =
      let closing = if s.is_open then closes ∷ [] else [] in
      Leaves-append done (closing ++ releases_lock ∷ []) g (ground arith)
  run-Keeps (r ∷ rs) s done (h, hs) (e, g) =
      behind-Keeps rs (turn long_max ulong_mod hwmon r s) done
        (λ t acts keeps. run-Keeps rs t acts hs keeps) (turn-Keeps r s h e) g

-- As long as the settings have the level that a daemon was started with, its log has the threshold
-- "debug" if that is the level, and "info" else: the levels "warning" and "error" have no effect.
pub daemon_threshold :
    (long_max ulong_mod : ℕ) (hwmon : Option Bytes) (rs : List Round) (c : Config) (l : Log)
    → All (ReadsLevel long_max c.log_level) rs
    → (log_behind
        (done_of (daemon_mode long_max ulong_mod hwmon false true rs c))
        (daemon_log c l)).threshold
      ≡ (if is_debug (config_parse_log_level (some c.log_level)) then log_debug else log_info)
unfolding daemon_mode daemon_log logging_init
daemon_threshold m u hwmon rs c l h =
    ap (λ (x : Log). x.threshold)
      (log_behind-Leaves _ _ (run-Keeps m u hwmon c.log_level rs (start c) [] h (refl, tt)))

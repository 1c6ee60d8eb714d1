-- ===== src/Daemon/Exit.antt =====
-- What the daemon of src/daemon.c does to the outside in its rounds, and how it leaves.
use quectel_rm520n_thermal.Base.{
  ℕ, ◌≡◌, refl, ℤ, Bool, true, false, Option, none, some, List, [], ◌∷◌, ◌++◌, arith, if◌then◌else◌,
  All,
}
use quectel_rm520n_thermal.CString.{Bytes}
use quectel_rm520n_thermal.Kmod.Defs.{InRange}
use quectel_rm520n_thermal.Config.{Config}
use quectel_rm520n_thermal.Config.Validity.{IsValid}
use quectel_rm520n_thermal.Serial.{Answer, pending, minus_one, answered, c_string, send_at_command}
use quectel_rm520n_thermal.Temperature.{Triple, extract_temp_values, select_best_temperature}
use quectel_rm520n_thermal.Temperature.Bounds.{select_best_temperature_max}
use quectel_rm520n_thermal.Daemon.State.{
  max_response, State, Round, Action, closes, releases_lock, start,
}
use quectel_rm520n_thermal.Daemon.Reload.{reload}
use quectel_rm520n_thermal.Daemon.Port.{
  Connected, connected, retries, exits, count_iteration, count_at_error, count_parse_error,
  count_success, connect_from, connect,
}
use quectel_rm520n_thermal.Daemon.Publish.{publish}
use quectel_rm520n_thermal.Daemon.Loop.{
  at_command, Turn, goes, stops, blocked, value_or_zero, all_wanted, prefixes, at_failed, on_best,
  on_extracted, on_answer, on_connected, on_reloaded, turn, Outcome, behind, shut_down, run,
  daemon_mode,
}
use quectel_rm520n_thermal.Daemon.Effects.{
  IsHarmless, IsFit, ConnectedIsFit, IsHarmless-append, rest_fit, connect_fit, reload-IsFit,
  publish-All,
}
use quectel_rm520n_thermal.Daemon.Threshold.{done_of}
use quectel_rm520n_thermal.Daemon.Tidy.{IsTidy, daemon_mode-IsTidy}

abbrev TurnIsFit : Turn → Type 0
TurnIsFit (goes t done) = IsFit t × All IsHarmless done
TurnIsFit (stops t done) = All IsHarmless done
TurnIsFit (blocked t done) = All IsHarmless done

-- What the daemon has done, whether it exits or waits for the modem.
abbrev pub IsOrderly : Outcome → Type 0
IsOrderly x = All IsHarmless (done_of x) × IsTidy x

module _ (long_max ulong_mod : ℕ) (hwmon : Option Bytes) where
  at_failed_fit :
      (s : State) (done : List Action)
      → IsFit s
      → All IsHarmless done
      → TurnIsFit (at_failed long_max ulong_mod hwmon s done)
  unfolding at_failed count_at_error
  at_failed_fit s done h k =
      let rested = rest_fit long_max ulong_mod s done h k in
      let closed =
        rest_fit long_max ulong_mod s (done ++ closes ∷ []) h
          (IsHarmless-append done _ k (tt, tt)) in
      let released = IsHarmless-append done (closes ∷ releases_lock ∷ []) k (tt, (tt, tt)) in
      ground arith

  on_best_fit :
      (r : Round) (best : Option ℤ) (s : State) (done : List Action)
      → ((v : ℤ) → best ≡ some v → InRange v)
      → IsFit s
      → All IsHarmless done
      → TurnIsFit (on_best long_max ulong_mod hwmon r best s done)
  unfolding on_best count_parse_error count_success publish
  on_best_fit r none s done i h k = (h, k)
  on_best_fit r (some v) s done i h k =
      let t = count_success ulong_mod s in
      (
        h,
        rest_fit long_max ulong_mod s _ h
            (IsHarmless-append done _ k (publish-All IsHarmless v (λ path. i v refl) r hwmon t)),
      )

  on_extracted_fit :
      (r : Round) (x : Bool × Triple (Option ℤ)) (s : State) (done : List Action)
      → IsFit s
      → All IsHarmless done
      → TurnIsFit (on_extracted long_max ulong_mod hwmon r x s done)
  unfolding on_extracted count_parse_error
  on_extracted_fit r (false, t) s done h k = (h, rest_fit long_max ulong_mod s done h k)
  on_extracted_fit r (true, t) s done h k =
      let m = value_or_zero t.modem in
      let a = value_or_zero t.ap in
      let p = value_or_zero t.pa in
      on_best_fit r (select_best_temperature m a p true) s done
        (λ v e. (select_best_temperature_max m a p e).4) h k

  on_answer_fit :
      (r : Round) (c : Config) (a : Answer) (s : State) (done : List Action)
      → IsFit s
      → All IsHarmless done
      → TurnIsFit (on_answer long_max ulong_mod hwmon r c a s done)
  unfolding on_answer
  on_answer_fit r c pending s done h k = k
  on_answer_fit r c minus_one s done h k = at_failed_fit s done h k
  on_answer_fit r c (answered []) s done h k = at_failed_fit s done h k
  on_answer_fit r c (answered (d ∷ ds)) s done h k =
      on_extracted_fit r
        (extract_temp_values long_max (some (c_string (d ∷ ds))) all_wanted (prefixes c)) s done h k

  on_connected_fit :
      (r : Round) (c : Config) (y : Connected)
      → ConnectedIsFit y
      → TurnIsFit (on_connected long_max ulong_mod hwmon r c y)
  unfolding on_connected
  on_connected_fit r c (connected s done) (h, k) =
      on_answer_fit r c (send_at_command true (some at_command) true max_response r.exchange) s done
        h k
  on_connected_fit r c (retries s done) h = h
  on_connected_fit r c (exits s done) h = h

  on_reloaded_fit :
      (r : Round) (y : State × Config × List Action)
      → IsFit y.0 × All IsHarmless y.2
      → TurnIsFit (on_reloaded long_max ulong_mod hwmon r y)
  unfolding on_reloaded connect
  on_reloaded_fit r (s, c, done) (h, k) =
      on_connected_fit r c (connect_from ulong_mod s.is_open r.opens c s done)
        (connect_fit long_max ulong_mod s.is_open r.opens c s done h k)

  turn_fit : (r : Round) (s : State) → IsFit s → TurnIsFit (turn long_max ulong_mod hwmon r s)
  unfolding turn count_iteration
  turn_fit r s h =
      on_reloaded_fit r (reload long_max r (count_iteration ulong_mod s))
        (reload-IsFit long_max ulong_mod r (count_iteration ulong_mod s) h)

  behind_fit :
      (rs : List Round) (x : Turn) (done : List Action)
      → ((t : State) (acts : List Action)
          → IsFit t
          → All IsHarmless acts
          → All IsHarmless (done_of (run long_max ulong_mod hwmon rs t acts)))
      → TurnIsFit x
      → All IsHarmless done
      → All IsHarmless
          (done_of (behind long_max ulong_mod hwmon (run long_max ulong_mod hwmon rs) x done))
  behind_fit rs (goes t more) done ih (h, k) g =
      ih t (done ++ more) h (IsHarmless-append done more g k)
  behind_fit rs (stops t more) done ih k g = IsHarmless-append done more g k
  behind_fit rs (blocked t more) done ih k g = IsHarmless-append done more g k

  shut_down_fit :
      (s : State) (done : List Action)
      → All IsHarmless done
      → All IsHarmless (done_of (shut_down long_max ulong_mod hwmon s done))
  unfolding shut_down
  shut_down_fit s done g =
      let closing = if s.is_open then closes ∷ [] else [] in
      IsHarmless-append done (closing ++ releases_lock ∷ []) g (ground arith)

  run_fit :
      (rs : List Round) (s : State) (done : List Action)
      → IsFit s
      → All IsHarmless done
      → All IsHarmless (done_of (run long_max ulong_mod hwmon rs s done))
  unfolding run
  run_fit [] s done h g = shut_down_fit s done g
  run_fit (r ∷ rs) s done h g =
      behind_fit rs (turn long_max ulong_mod hwmon r s) done
        (λ t acts fit harmless. run_fit rs t acts fit harmless) (turn_fit r s h) g

  -- Whatever the daemon meets from valid settings on, with its lock got: a temperature that it writes
  -- is in the range of the hardware, and a sleep takes one second to an hour; when it exits, it has
  -- closed the port as often as it had opened it, has no descriptor of it left, and the release of
  -- the lock is the last that it does.
  pub daemon_mode-IsOrderly :
      (rs : List Round) (c : Config)
      → IsValid c
      → IsOrderly (daemon_mode long_max ulong_mod hwmon false true rs c)
  unfolding daemon_mode
  daemon_mode-IsOrderly rs c valid = (
    run_fit rs (start c) [] ((valid.interval_low, valid.interval_high), omega arith, omega arith)
        tt,
    daemon_mode-IsTidy long_max ulong_mod hwmon rs c,
  )

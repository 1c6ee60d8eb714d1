-- ===== src/Daemon/Tidy.antt =====
-- How the daemon of src/daemon.c leaves: its port and its lock.
use quectel_rm520n_thermal.Base.{
  ℕ, ◌≡◌, refl, subst, ℤ, pos, Bool, true, false, Option, none, some, List, [], ◌∷◌, ◌++◌,
  if◌then◌else◌, arith, ◌∙◌, sym, ap, append_assoc,
}
use quectel_rm520n_thermal.CString.{Bytes}
use quectel_rm520n_thermal.Config.{Config, config_read_uci}
use quectel_rm520n_thermal.Serial.{Answer, pending, minus_one, answered, c_string, send_at_command}
use quectel_rm520n_thermal.Temperature.{Triple, extract_temp_values}
use quectel_rm520n_thermal.Daemon.State.{
  max_response, State, Round, Action, closes, releases_lock, start,
}
use quectel_rm520n_thermal.Daemon.Reload.{reload}
use quectel_rm520n_thermal.Daemon.Port.{
  Connected, connected, retries, exits, count_iteration, count_serial_error, count_at_error,
  count_parse_error, count_success, open_failed, connect_from, connect,
}
use quectel_rm520n_thermal.Daemon.Publish.{publish}
use quectel_rm520n_thermal.Daemon.Effects.{publish-All}
use quectel_rm520n_thermal.Daemon.Loop.{
  at_command, Turn, goes, stops, blocked, all_wanted, prefixes, at_failed, on_best, on_extracted,
  on_answer, on_connected, on_reloaded, turn, Outcome, returns, waits, behind, shut_down, run,
  daemon_mode,
}
use quectel_rm520n_thermal.Daemon.Ports.{
  opened, closed, Released, Balanced, Balanced-append, IsQuiet, quiet-Balanced, reloaded-Balanced,
  tried-Balanced, pause-Balanced, release-Balanced, close-Balanced,
}

abbrev ConnectedIsTidy : Bool → Connected → Type 0
ConnectedIsTidy b (connected t done) = Balanced b done t.is_open × (t.is_open ≡ true)
ConnectedIsTidy b (retries t done) = Balanced b done t.is_open
ConnectedIsTidy b (exits t done) = Balanced b done false × Released done × (t.is_open ≡ false)

abbrev TurnIsTidy : Bool → Turn → Type 0
TurnIsTidy b (goes t done) = Balanced b done t.is_open
TurnIsTidy b (stops t done) = Balanced b done false × Released done × (t.is_open ≡ false)
TurnIsTidy b (blocked t done) = Unit

-- When the daemon exits, the port has been closed as often as it was opened, and the release of the
-- lock is the last.
abbrev pub IsTidy : Outcome → Type 0
IsTidy (returns code t done) = (opened done ≡ closed done) × Released done × (t.is_open ≡ false)
IsTidy (waits t done) = Unit

module _ (long_max ulong_mod : ℕ) where
  open_failed-IsTidy :
      (b : Bool) (s : State) (done : List Action)
      → s.is_open ≡ false
      → Balanced b done false
      → ConnectedIsTidy b (open_failed ulong_mod s done)
  unfolding open_failed count_serial_error
  open_failed-IsTidy b s done e h =
      let slept = pause-Balanced b false done (pos s.reconnect_delay) h in
      let released = release-Balanced b false done h in
      let last : Released (done ++ releases_lock ∷ []) = (done, refl) in ground arith

  connect-IsTidy :
      (b is_open opens : Bool) (c : Config) (s : State) (done : List Action)
      → s.is_open ≡ is_open
      → Balanced b done is_open
      → ConnectedIsTidy b (connect_from ulong_mod is_open opens c s done)
  unfolding connect_from
  connect-IsTidy b true opens c s done e h = rw e (h, refl)
  connect-IsTidy b false true c s done e h = (tried-Balanced b done _ _ true h, refl)
  connect-IsTidy b false false c s done e h =
      open_failed-IsTidy b s _ e (tried-Balanced b done _ _ false h)

  module _ (hwmon : Option Bytes) (b : Bool) where
    at_failed-IsTidy :
        (s : State) (done : List Action)
        → s.is_open ≡ true
        → Balanced b done true
        → TurnIsTidy b (at_failed long_max ulong_mod hwmon s done)
    unfolding at_failed count_at_error
    at_failed-IsTidy s done e h =
        let split = append_assoc done (closes ∷ []) (releases_lock ∷ []) in
        let shut = close-Balanced b done h in
        let released =
          subst (λ (acts : List Action). Balanced b acts false) split
            (release-Balanced b false _ shut) in
        let last : Released (done ++ closes ∷ releases_lock ∷ []) =
          (done ++ closes ∷ [], sym split) in
        let closed_rest = pause-Balanced b false _ s.config.interval shut in
        let rested = pause-Balanced b true done s.config.interval h in ground arith

    on_best-IsTidy :
        (r : Round) (best : Option ℤ) (s : State) (done : List Action)
        → Balanced b done s.is_open
        → TurnIsTidy b (on_best long_max ulong_mod hwmon r best s done)
    unfolding on_best count_parse_error count_success publish
    on_best-IsTidy r none s done h = h
    on_best-IsTidy r (some v) s done h =
        let t = count_success ulong_mod s in
        let quiet = publish-All IsQuiet v (λ path. (refl, refl)) r hwmon t in
        pause-Balanced b s.is_open _ _ (
          Balanced-append b s.is_open s.is_open done _ h
            (quiet-Balanced s.is_open (publish r hwmon v t).1 quiet))

    on_extracted-IsTidy :
        (r : Round) (x : Bool × Triple (Option ℤ)) (s : State) (done : List Action)
        → Balanced b done s.is_open
        → TurnIsTidy b (on_extracted long_max ulong_mod hwmon r x s done)
    unfolding on_extracted count_parse_error
    on_extracted-IsTidy r (false, t) s done h = pause-Balanced b s.is_open done _ h
    on_extracted-IsTidy r (true, t) s done h = on_best-IsTidy r _ s done h

    on_answer-IsTidy :
        (r : Round) (c : Config) (a : Answer) (s : State) (done : List Action)
        → s.is_open ≡ true
        → Balanced b done s.is_open
        → TurnIsTidy b (on_answer long_max ulong_mod hwmon r c a s done)
    unfolding on_answer
    on_answer-IsTidy r c pending s done e h = tt
    on_answer-IsTidy r c minus_one s done e h = at_failed-IsTidy s done e (rw e at h)
    on_answer-IsTidy r c (answered []) s done e h = at_failed-IsTidy s done e (rw e at h)
    on_answer-IsTidy r c (answered (d ∷ ds)) s done e h =
        on_extracted-IsTidy r
          (extract_temp_values long_max (some (c_string (d ∷ ds))) all_wanted (prefixes c)) s done h

    on_connected-IsTidy :
        (r : Round) (c : Config) (y : Connected)
        → ConnectedIsTidy b y
        → TurnIsTidy b (on_connected long_max ulong_mod hwmon r c y)
    unfolding on_connected
    on_connected-IsTidy r c (connected s done) (h, e) =
        on_answer-IsTidy r c (send_at_command true (some at_command) true max_response r.exchange) s
          done e h
    on_connected-IsTidy r c (retries s done) h = h
    on_connected-IsTidy r c (exits s done) h = h

    on_reloaded-IsTidy :
        (r : Round) (y : State × Config × List Action)
        → Balanced b y.2 y.0.is_open
        → TurnIsTidy b (on_reloaded long_max ulong_mod hwmon r y)
    unfolding on_reloaded connect
    on_reloaded-IsTidy r (s, c, done) h =
        on_connected-IsTidy r c (connect_from ulong_mod s.is_open r.opens c s done)
          (connect-IsTidy b s.is_open r.opens c s done refl h)

  module _ (hwmon : Option Bytes) where
    reload-Balanced :
        (r : Round) (s : State)
        → Balanced s.is_open (reload long_max r s).2 (reload long_max r s).0.is_open
    unfolding reload
    reload-Balanced r s =
        let same = reloaded-Balanced (config_read_uci long_max r.uci (some s.config)) s in
        ground arith

    turn-IsTidy : (r : Round) (s : State) → TurnIsTidy s.is_open (turn long_max ulong_mod hwmon r s)
    unfolding turn count_iteration
    turn-IsTidy r s =
        let t = count_iteration ulong_mod s in
        on_reloaded-IsTidy hwmon s.is_open r (reload long_max r t) (reload-Balanced r t)

    behind-IsTidy :
        (rs : List Round) (b : Bool) (x : Turn) (done : List Action)
        → ((t : State) (acts : List Action)
            → Balanced false acts t.is_open
            → IsTidy (run long_max ulong_mod hwmon rs t acts))
        → TurnIsTidy b x
        → Balanced false done b
        → IsTidy (behind long_max ulong_mod hwmon (run long_max ulong_mod hwmon rs) x done)
    behind-IsTidy rs b (goes t more) done ih h g =
        ih t (done ++ more) (Balanced-append false b t.is_open done more g h)
    behind-IsTidy rs b (stops t more) done ih (h, (before, last), e) g = (
      omega (arith, Balanced-append false b false done more g h),
      (done ++ before, ap (◌++◌ done) last ∙ sym (append_assoc done before (releases_lock ∷ []))),
      e,
    )
    behind-IsTidy rs b (blocked t more) done ih h g = tt

    closing-Balanced : (b : Bool) → Balanced b (if b then closes ∷ [] else []) false
    closing-Balanced true = omega arith
    closing-Balanced false = omega arith

    shut_down-IsTidy :
        (s : State) (done : List Action)
        → Balanced false done s.is_open
        → IsTidy (shut_down long_max ulong_mod hwmon s done)
    unfolding shut_down
    shut_down-IsTidy s done h =
        let closing = if s.is_open then closes ∷ [] else [] in
        let all =
          Balanced-append false s.is_open false done _ h
            (release-Balanced s.is_open false closing (closing-Balanced s.is_open)) in
        (
          omega (arith, all),
          (done ++ closing, sym (append_assoc done closing (releases_lock ∷ []))),
          refl,
        )

    run-IsTidy :
        (rs : List Round) (s : State) (done : List Action)
        → Balanced false done s.is_open
        → IsTidy (run long_max ulong_mod hwmon rs s done)
    unfolding run
    run-IsTidy [] s done h = shut_down-IsTidy s done h
    run-IsTidy (r ∷ rs) s done h =
        behind-IsTidy rs s.is_open (turn long_max ulong_mod hwmon r s) done
          (λ t acts g. run-IsTidy rs t acts g) (turn-IsTidy r s) h

    -- A daemon with its lock got that exits has closed its port, and released the lock last.
    pub daemon_mode-IsTidy :
        (rs : List Round) (c : Config)
        → IsTidy (daemon_mode long_max ulong_mod hwmon false true rs c)
    unfolding daemon_mode
    daemon_mode-IsTidy rs c = run-IsTidy rs (start c) [] (omega arith)

-- ===== src/Daemon/Statuses.antt =====
-- src/daemon.c: the exit statuses of `daemon_mode`.
use quectel_rm520n_thermal.Base.{
  ℕ, ◌≤◌, ◌≡◌, ◌⊎◌, inl, inr, refl, pos, eqb_ℤ, Bool, true, false, not, Option, none, some, List,
  [], ◌∷◌, ◌++◌, arith,
}
use quectel_rm520n_thermal.CString.{Bytes}
use quectel_rm520n_thermal.Config.{Config}
use quectel_rm520n_thermal.Lock.{Files, check_daemon_running, acquire_daemon_lock}
use quectel_rm520n_thermal.System.{Cache}
use quectel_rm520n_thermal.Daemon.State.{State, Round, Action, start}
use quectel_rm520n_thermal.Daemon.Loop.{
  Turn, goes, stops, blocked, turn, Outcome, returns, waits, behind, shut_down, run, daemon_mode,
}
use quectel_rm520n_thermal.Daemon.Start.{Launch, on_lock, on_running, start_daemon}

-- The statuses of the daemon, as `print_usage` lists them; with 3 it has done nothing.
abbrev pub DaemonStatus : Outcome → Type 0
DaemonStatus (returns code t done) = (code ≤ 1) ⊎ ((code ≡ 3) × (done ≡ []))
DaemonStatus (waits t done) = Unit

module _ (long_max ulong_mod : ℕ) (hwmon : Option Bytes) where
  behind-DaemonStatus :
      (loop : State → List Action → Outcome) (x : Turn) (done : List Action)
      → ((t : State) (acts : List Action) → DaemonStatus (loop t acts))
      → DaemonStatus (behind long_max ulong_mod hwmon loop x done)
  behind-DaemonStatus loop (goes t more) done ih = ih t (done ++ more)
  behind-DaemonStatus loop (stops t more) done ih = inl (omega arith)
  behind-DaemonStatus loop (blocked t more) done ih = tt

  run-DaemonStatus :
      (rs : List Round) (s : State) (done : List Action)
      → DaemonStatus (run long_max ulong_mod hwmon rs s done)
  unfolding run shut_down
  run-DaemonStatus [] s done = inl (omega arith)
  run-DaemonStatus (r ∷ rs) s done =
      behind-DaemonStatus (run long_max ulong_mod hwmon rs) (turn long_max ulong_mod hwmon r s) done
        (λ t acts. run-DaemonStatus rs t acts)

module _ (long_max ulong_mod : ℕ) (l : Launch) (rounds : List Round) (config : Config) where
  on_lock-DaemonStatus :
      (cache : Cache) (x : Option ℕ × Files)
      → DaemonStatus (on_lock long_max ulong_mod l rounds config cache x).0
  unfolding on_lock daemon_mode
  on_lock-DaemonStatus cache (none, s) = inr (refl, refl)
  on_lock-DaemonStatus cache (some i, s) =
      run-DaemonStatus long_max ulong_mod _ rounds (start config) []

  on_running-DaemonStatus :
      (running : Bool) (cache : Cache) (s : Files)
      → DaemonStatus (on_running long_max ulong_mod l rounds config running cache s).0
  unfolding on_running daemon_mode
  on_running-DaemonStatus true cache s = inr (refl, refl)
  on_running-DaemonStatus false cache s =
      on_lock-DaemonStatus cache (acquire_daemon_lock l.calls l.me s)

  pub start_daemon-DaemonStatus :
      (cache : Cache) (s : Files)
      → DaemonStatus (start_daemon long_max ulong_mod l rounds config cache s).0
  unfolding start_daemon
  start_daemon-DaemonStatus cache s =
      let (running, u) = check_daemon_running l.scan_int l.alive s in
      on_running-DaemonStatus (not (eqb_ℤ running (pos 0))) cache u

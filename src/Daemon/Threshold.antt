-- ===== src/Daemon/Threshold.antt =====
-- The log of src/daemon.c: its threshold, and when that is set.
use quectel_rm520n_thermal.Base.{
  ℕ, ◌≡◌, refl, ℤ, Bool, true, false, Option, none, some, List, [], ◌∷◌, ◌++◌, arith, All,
  All-append,
}
use quectel_rm520n_thermal.CString.{Bytes}
use quectel_rm520n_thermal.CString.Search.{strcmp_eq_iff}
use quectel_rm520n_thermal.Config.{
  Priority, log_debug, Config, config_parse_log_level, config_read_uci,
}
use quectel_rm520n_thermal.Logging.{Log, ulog_threshold, logging_init}
use quectel_rm520n_thermal.Daemon.State.{State, Round, Action, sets_threshold}
use quectel_rm520n_thermal.Daemon.Reload.{change_actions, reloaded}
use quectel_rm520n_thermal.Daemon.Port.{Connected, connected, retries, exits}
use quectel_rm520n_thermal.Daemon.Publish.{publish}
use quectel_rm520n_thermal.Daemon.Effects.{publish-All}
use quectel_rm520n_thermal.Daemon.Loop.{Turn, goes, stops, blocked, Outcome, returns, waits}

abbrev pub is_debug : Priority → Bool
is_debug log_debug = true
is_debug _ = false

-- The log as `daemon_mode` sets it up with its lock got, whatever it was before.
unfoldable pub daemon_log : Config → Log → Log
unfolding logging_init config_parse_log_level
daemon_log c l = logging_init true false (is_debug (config_parse_log_level (some c.log_level))) l

-- The log behind what the loop does.
unfoldable pub log_behind : List Action → Log → Log
log_behind [] l = l
log_behind (sets_threshold p ∷ rest) l = log_behind rest (ulog_threshold p l)
log_behind (_ ∷ rest) l = log_behind rest l

abbrev pub done_of : Outcome → List Action
done_of (returns code t done) = done
done_of (waits t done) = done

-- An action that leaves the threshold.
abbrev pub Leaves : Action → Type 0
Leaves (sets_threshold p) = ⊥
Leaves _ = Unit

pub log_behind-Leaves : (done : List Action) (l : Log) → All Leaves done → log_behind done l ≡ l
unfolding log_behind
log_behind-Leaves [] l h = refl
log_behind-Leaves (sets_threshold p ∷ rest) l (h, hs) = absurd h
log_behind-Leaves (_ ∷ rest) l (h, hs) = log_behind-Leaves rest l hs

pub Leaves-append :
    (done more : List Action) → All Leaves done → All Leaves more → All Leaves (done ++ more)
Leaves-append done more h k = All-append Leaves done more h k

pub publish-Leaves :
    (r : Round) (hwmon : Option Bytes) (v : ℤ) (s : State) → All Leaves (publish r hwmon v s).1
publish-Leaves r hwmon v s = publish-All Leaves v (λ path. tt) r hwmon s

-- The state has a level of the log, and the threshold was left.
abbrev pub Keeps : Bytes → State → List Action → Type 0
Keeps level s done = (s.config.log_level ≡ level) × All Leaves done

abbrev pub ConnectedKeeps : Bytes → Connected → Type 0
ConnectedKeeps level (connected s done) = Keeps level s done
ConnectedKeeps level (retries s done) = Keeps level s done
ConnectedKeeps level (exits s done) = Keeps level s done

abbrev pub TurnKeeps : Bytes → Turn → Type 0
TurnKeeps level (goes s done) = Keeps level s done
TurnKeeps level (stops s done) = Keeps level s done
TurnKeeps level (blocked s done) = Keeps level s done

-- Whatever the settings were, the round reads that level.
abbrev pub ReadsLevel : ℕ → Bytes → Round → Type 0
ReadsLevel long_max level r =
    (c d : Config) → (config_read_uci long_max r.uci (some c)).1 ≡ some d → d.log_level ≡ level

change_actions-Leaves :
    (previous config : Config) (is_open : Bool)
    → previous.log_level ≡ config.log_level
    → All Leaves (change_actions previous config is_open)
unfolding change_actions
change_actions-Leaves previous config is_open e =
    let same = (strcmp_eq_iff previous.log_level config.log_level).1 e in ground arith

pub reloaded-Keeps :
    (level : Bytes) (x : Bool × Option Config) (s : State)
    → ((d : Config) → x.1 ≡ some d → d.log_level ≡ level)
    → s.config.log_level ≡ level
    → Keeps level (reloaded x s).0 (reloaded x s).2
unfolding reloaded
reloaded-Keeps level (ok, none) s h e = (e, tt)
reloaded-Keeps level (false, some c) s h e = (h c refl, tt)
reloaded-Keeps level (true, some c) s h e =
    let now = h c refl in let left = change_actions-Leaves s.config c s.is_open (cc) in ground arith

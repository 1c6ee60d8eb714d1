-- ===== src/Daemon/Patience.antt =====
-- How long the daemon of src/daemon.c goes on without an answer of the modem.
use quectel_rm520n_thermal.Base.{
  ℕ, ◌+◌, ◌-◌, ◌*◌, ◌≤◌, ◌<◌, ◌≡◌, refl, Bool, true, false, Option, none, some, List, [], ◌∷◌, ◌++◌,
  arith, length, All,
}
use quectel_rm520n_thermal.CString.{Bytes}
use quectel_rm520n_thermal.CString.Search.{strcmp_eq_iff}
use quectel_rm520n_thermal.Config.{Config, Speed, b9600, b19200, config_read_uci}
use quectel_rm520n_thermal.Serial.{Answer, pending, minus_one, answered, send_at_command}
use quectel_rm520n_thermal.Daemon.State.{max_response, State, Round, Action, start}
use quectel_rm520n_thermal.Daemon.Reload.{speed_eq, port_changed, reloaded, reload}
use quectel_rm520n_thermal.Daemon.Port.{
  Connected, connected, retries, exits, count_iteration, count_serial_error, count_at_error,
  open_failed, connect_from, connect,
}
use quectel_rm520n_thermal.Daemon.Loop.{
  at_command, Turn, goes, stops, blocked, at_failed, on_answer, on_connected, on_reloaded, turn,
  Outcome, returns, behind, run, daemon_mode,
}

-- An answer that `send_at_command` gives as -1 or 0.
abbrev pub IsFailed : Answer → Type 0
IsFailed minus_one = Unit
IsFailed (answered []) = Unit
IsFailed _ = ⊥

-- The modem gives no answer, and the settings are those that the daemon has.
abbrev pub IsSilent : ℕ → Config → Round → Type 0
IsSilent long_max c r =
    IsFailed (send_at_command true (some at_command) true max_response r.exchange)
    × ((config_read_uci long_max r.uci (some c)).1 ≡ some c)

-- Rounds that are left, at most, until the daemon gives up.
abbrev patience_from : Bool → ℕ → ℕ → ℕ
patience_from true attempts cycles = 9 * (3 - cycles) - 5 - attempts
patience_from false attempts cycles = 9 * (3 - cycles) - attempts

abbrev patience : State → ℕ
patience s = patience_from s.is_open s.serial_reconnect_attempts s.failed_cycles

-- Where the counters stand between rounds.
abbrev Counting : Bool → ℕ → ℕ → Type 0
Counting true attempts cycles = (attempts ≤ 3) × (cycles ≤ 2)
Counting false attempts cycles = (attempts ≤ 5) × (cycles ≤ 2)

abbrev IsCounting : State → Type 0
IsCounting s = Counting s.is_open s.serial_reconnect_attempts s.failed_cycles

-- A turn that brings the daemon nearer to giving up, from `n` rounds that are left.
abbrev Nearer : ℕ → Config → Turn → Type 0
Nearer n c (goes t done) = (patience t < n) × IsCounting t × (t.config ≡ c)
Nearer n c (stops t done) = Unit
Nearer n c (blocked t done) = ⊥

abbrev ConnectedNearer : ℕ → Config → Connected → Type 0
ConnectedNearer n c (connected t done) =
    (t.is_open ≡ true)
    × (t.serial_reconnect_attempts ≤ 3)
    × (t.failed_cycles ≤ 2)
    × (t.config ≡ c)
    × (9 * (3 - t.failed_cycles) - 5 - t.serial_reconnect_attempts ≤ n)
ConnectedNearer n c (retries t done) = (patience t < n) × IsCounting t × (t.config ≡ c)
ConnectedNearer n c (exits t done) = Unit

-- The link's part of a state is that of another one, under settings `c`.
abbrev SameLink : State → Config → State → Type 0
SameLink s c t =
    (t.is_open ≡ s.is_open)
    × (t.serial_reconnect_attempts ≡ s.serial_reconnect_attempts)
    × (t.failed_cycles ≡ s.failed_cycles)
    × (t.config ≡ c)

same_speed : (b : Speed) → speed_eq b b ≡ true
same_speed b9600 = refl
same_speed b19200 = refl
same_speed _ = refl

same_port : (c : Config) → port_changed c c ≡ false
unfolding port_changed
same_port c = rw ((strcmp_eq_iff c.serial_port c.serial_port).1 refl, same_speed c.baud_rate) refl

reloaded_same :
    (b : Bool × Option Config) (s : State)
    → b.1 ≡ some s.config
    → SameLink s s.config (reloaded b s).0
unfolding reloaded
reloaded_same (ok, none) s e = cc
reloaded_same (false, some c) s e = ground arith
reloaded_same (true, some c) s e = let same = same_port s.config in ground arith

reload_same :
    (long_max : ℕ) (r : Round) (s : State)
    → (config_read_uci long_max r.uci (some s.config)).1 ≡ some s.config
    → SameLink s s.config (reload long_max r s).0
unfolding reload
reload_same m r s e =
    let same = reloaded_same (config_read_uci m r.uci (some s.config)) s e in ground arith

module _ (ulong_mod : ℕ) where
  open_failed_nearer :
      (s : State) (c : Config) (done : List Action)
      → s.is_open ≡ false
      → IsCounting s
      → s.config ≡ c
      → ConnectedNearer (patience s) c (open_failed ulong_mod s done)
  unfolding open_failed count_serial_error
  open_failed_nearer s c done closed a e = ground arith

  connect_nearer :
      (is_open opens : Bool) (c d : Config) (s : State) (done : List Action)
      → s.is_open ≡ is_open
      → IsCounting s
      → s.config ≡ c
      → ConnectedNearer (patience s) c (connect_from ulong_mod is_open opens d s done)
  unfolding connect_from
  connect_nearer true opens c d s done up a e = ground arith
  connect_nearer false true c d s done closed a e = ground arith
  connect_nearer false false c d s done closed a e = open_failed_nearer s c _ closed a e

  module _ (long_max : ℕ) (hwmon : Option Bytes) where
    at_failed-Nearer :
        (n : ℕ) (s : State) (c : Config) (done : List Action)
        → ConnectedNearer n c (connected s done)
        → Nearer n c (at_failed long_max ulong_mod hwmon s done)
    unfolding at_failed count_at_error
    at_failed-Nearer n s c done h = ground arith

    on_answer-Nearer :
        (n : ℕ) (r : Round) (c d : Config) (a : Answer) (s : State) (done : List Action)
        → IsFailed a
        → ConnectedNearer n c (connected s done)
        → Nearer n c (on_answer long_max ulong_mod hwmon r d a s done)
    unfolding on_answer
    on_answer-Nearer n r c d pending s done f h = absurd f
    on_answer-Nearer n r c d minus_one s done f h = at_failed-Nearer n s c done h
    on_answer-Nearer n r c d (answered []) s done f h = at_failed-Nearer n s c done h
    on_answer-Nearer n r c d (answered (b ∷ bs)) s done f h = absurd f

    on_connected-Nearer :
        (n : ℕ) (r : Round) (c d : Config) (y : Connected)
        → IsSilent long_max c r
        → ConnectedNearer n c y
        → Nearer n c (on_connected long_max ulong_mod hwmon r d y)
    unfolding on_connected
    on_connected-Nearer n r c d (connected s done) q h =
        on_answer-Nearer n r c d
          (send_at_command true (some at_command) true max_response r.exchange) s done q.0 h
    on_connected-Nearer n r c d (retries s done) q h = h
    on_connected-Nearer n r c d (exits s done) q h = h

    on_reloaded-Nearer :
        (r : Round) (s : State) (y : State × Config × List Action)
        → IsSilent long_max s.config r
        → IsCounting s
        → SameLink s s.config y.0
        → Nearer (patience s) s.config (on_reloaded long_max ulong_mod hwmon r y)
    unfolding on_reloaded connect
    on_reloaded-Nearer r s (t, d, done) q a (up, tries, cycles, kept) =
        on_connected-Nearer (patience s) r s.config d
          (connect_from ulong_mod t.is_open r.opens d t done) q
          (rw (← up, ← tries, ← cycles)
            (connect_nearer t.is_open r.opens s.config d t done refl (rw (up, tries, cycles) a)
              kept))

    turn-Nearer :
        (r : Round) (s : State)
        → IsSilent long_max s.config r
        → IsCounting s
        → Nearer (patience s) s.config (turn long_max ulong_mod hwmon r s)
    unfolding turn count_iteration
    turn-Nearer r s q a =
        on_reloaded-Nearer r s (reload long_max r (count_iteration ulong_mod s)) q a
          (reload_same long_max r (count_iteration ulong_mod s) q.1)

    abbrev pub GivesUp : Outcome → Type 0
    GivesUp o = (t : State) × (done : List Action) × (o ≡ returns 1 t done)

    behind-GivesUp :
        (n : ℕ) (rs : List Round) (c : Config) (x : Turn) (done : List Action)
        → ((t : State) (acts : List Action)
            → patience t ≤ length rs
            → IsCounting t
            → t.config ≡ c
            → GivesUp (run long_max ulong_mod hwmon rs t acts))
        → n ≤ length rs + 1
        → Nearer n c x
        → GivesUp (behind long_max ulong_mod hwmon (run long_max ulong_mod hwmon rs) x done)
    behind-GivesUp n rs c (goes t more) done ih e (less, a, kept) =
        ih t (done ++ more) (omega arith) a kept
    behind-GivesUp n rs c (stops t more) done ih e h = (t, done ++ more, refl)
    behind-GivesUp n rs c (blocked t more) done ih e h = absurd h

    run-GivesUp :
        (rs : List Round) (s : State) (done : List Action)
        → All (IsSilent long_max s.config) rs
        → patience s ≤ length rs
        → IsCounting s
        → GivesUp (run long_max ulong_mod hwmon rs s done)
    unfolding run
    run-GivesUp [] s done q h a = absurd (ground arith)
    run-GivesUp (r ∷ rs) s done q h a =
        behind-GivesUp (patience s) rs s.config (turn long_max ulong_mod hwmon r s) done
          (λ t acts e b kept. run-GivesUp rs t acts (rw kept q.1) e b) (omega arith)
          (turn-Nearer r s q.0 a)

    -- A daemon that gets no answer of the modem, while its settings stay as they are, exits with status
    -- 1 within 27 rounds, whether the port can be opened or not.
    pub daemon_mode-GivesUp :
        (rs : List Round) (c : Config)
        → All (IsSilent long_max c) rs
        → 27 ≤ length rs
        → GivesUp (daemon_mode long_max ulong_mod hwmon false true rs c)
    unfolding daemon_mode
    daemon_mode-GivesUp rs c q h = run-GivesUp rs (start c) [] q h (omega arith)

-- ===== src/Daemon/Start.antt =====
-- src/daemon.c: how `daemon_mode` begins and ends, with the lock of src/system.c and the search for
-- the hwmon device.
use quectel_rm520n_thermal.Base.{
  ℕ, ◌≡◌, ◌≢◌, ◌⊎◌, inl, inr, refl, subst, ℤ, pos, eqb_ℤ, Bool, true, false, not, if◌then◌else◌,
  Option, none, some, List, [], ◌∷◌, ◌++◌, arith, Bool-cases,
}
use quectel_rm520n_thermal.CString.{Bytes}
use quectel_rm520n_thermal.Config.{Config}
use quectel_rm520n_thermal.Lock.{
  Files, Calls, on_pid, on_pid_file, check_daemon_running, acquire_daemon_lock, unlock,
  release_daemon_lock,
}
use quectel_rm520n_thermal.Lock.Mutex.{Attempt, acquire-Attempt}
use quectel_rm520n_thermal.System.{Entry, Cache, path_max_len, find_quectel_hwmon_path}
use quectel_rm520n_thermal.Daemon.State.{State, Round, Action, releases_lock, start}
use quectel_rm520n_thermal.Daemon.Ports.{Released}
use quectel_rm520n_thermal.Daemon.Tidy.{IsTidy, daemon_mode-IsTidy}
use quectel_rm520n_thermal.Daemon.Loop.{Outcome, returns, waits, daemon_mode}

-- What the start of a daemon meets: the processes, the calls for the lock, its own PID, the
-- directory of the hwmon devices, and whether `atexit` succeeds.
pub record Launch : Type 0 where
  pub scan_int : Bytes → Option ℤ  -- `fscanf(file, "%d", &pid)`
  pub alive : ℤ → Bool  -- `kill(pid, 0) == 0`
  pub calls : Calls
  pub me : ℕ
  pub device_readable : ℤ → Bool
  pub entries : Option (List Entry)
  pub registers : Bool

-- `daemon_mode` has called `release_daemon_lock`.
abbrev pub releases : List Action → Bool
releases [] = false
releases (releases_lock ∷ rest) = true
releases (_ ∷ rest) = releases rest

-- `daemon_lock_fd` and the files behind `daemon_mode`, by what it did.
abbrev pub behind_loop : Bool → Option ℕ → Files → Option ℕ × Files
behind_loop released daemon_lock_fd s =
    if released then (none, release_daemon_lock daemon_lock_fd s) else (daemon_lock_fd, s)

-- `daemon_cleanup`, if it is registered; then the process is gone, and its descriptor with it.
abbrev pub at_exit : Bool → Option ℕ × Files → Files
at_exit true (daemon_lock_fd, s) = release_daemon_lock daemon_lock_fd s
at_exit false (daemon_lock_fd, s) = unlock daemon_lock_fd s

-- The files behind an exit. A daemon that waits for the modem has its lock still.
unfoldable pub ended : Bool → Option ℕ → Outcome → Files → Files
unfolding release_daemon_lock
ended registers daemon_lock_fd (returns code t done) s =
    at_exit registers (behind_loop (releases done) daemon_lock_fd s)
ended registers daemon_lock_fd (waits t done) s = s

module _ (long_max ulong_mod : ℕ) (l : Launch) (rounds : List Round) (config : Config) where
  -- With the descriptor of the lock, if that was got.
  unfoldable pub on_lock : Cache → Option ℕ × Files → Outcome × Files
  unfolding daemon_mode ended find_quectel_hwmon_path
  on_lock cache (none, s) = (daemon_mode long_max ulong_mod none false false rounds config, s)
  on_lock cache (some i, s) =
      let hwmon =
        (find_quectel_hwmon_path long_max l.device_readable l.entries true path_max_len cache).0 in
      let outcome = daemon_mode long_max ulong_mod hwmon false true rounds config in
      (outcome, ended l.registers (some i) outcome s)

  -- The flag is what `check_daemon_running` answers.
  unfoldable pub on_running : Bool → Cache → Files → Outcome × Files
  unfolding on_lock acquire_daemon_lock
  on_running true cache s = (daemon_mode long_max ulong_mod none true false rounds config, s)
  on_running false cache s = on_lock cache (acquire_daemon_lock l.calls l.me s)

  abbrev on_checked : Cache → ℤ × Files → Outcome × Files
  on_checked cache (running, s) = on_running (not (eqb_ℤ running (pos 0))) cache s

  -- The whole life of a daemon.
  unfoldable pub start_daemon : Cache → Files → Outcome × Files
  unfolding on_running check_daemon_running
  start_daemon cache s = on_checked cache (check_daemon_running l.scan_int l.alive s)

-- A check for a daemon leaves the lock as it is.
SameLock : Files → Files → Type 0
SameLock s t = (t.lock_file ≡ s.lock_file) × ((j : ℕ) → t.owner j ≡ s.owner j)

module _ (scan_int : Bytes → Option ℤ) (alive : ℤ → Bool) where
  on_pid-SameLock : (o : Option ℤ) (s : Files) → SameLock s (on_pid alive o s).1
  unfolding SameLock on_pid
  on_pid-SameLock none s = (refl, λ j. refl)
  on_pid-SameLock (some pid) s = elim (Bool-cases (alive pid)) [
    | inl lives ↦ rw lives (refl, λ j. refl)
    | inr dead ↦ rw dead (refl, λ j. refl)
  ]

  on_pid_file-SameLock :
      (o : Option Bytes) (s : Files) → SameLock s (on_pid_file scan_int alive o s).1
  unfolding on_pid_file SameLock
  on_pid_file-SameLock none s = (refl, λ j. refl)
  on_pid_file-SameLock (some text) s = on_pid-SameLock (scan_int text) s

  check-SameLock : (s : Files) → SameLock s (check_daemon_running scan_int alive s).1
  unfolding check_daemon_running
  check-SameLock s = on_pid_file-SameLock s.pid_file s

module _ (long_max ulong_mod : ℕ) (l : Launch) (rounds : List Round) (config : Config) where
  -- A refused daemon: it exits with status 3, has done nothing, and the lock is its owner's still.
  abbrev pub IsRefused : ℕ → ℕ → Outcome × Files → Type 0
  IsRefused i q x =
      (x.0 ≡ returns 3 (start config) []) × (x.1.lock_file ≡ some i) × (x.1.owner i ≡ some q)

-- No PID file, no lock file, and no lock that was not there.
abbrev pub LeavesNothing : Files → Files → Type 0
LeavesNothing s u =
    (u.pid_file ≡ none)
    × (u.lock_file ≡ none)
    × ((j : ℕ) → (u.owner j ≡ s.owner j) ⊎ (u.owner j ≡ none))

-- The owners behind a try for the lock, by its descriptor.
abbrev TriesOnly : Files → Option ℕ × Files → Type 0
TriesOnly s (none, u) = Unit
TriesOnly s (some i, u) = (j : ℕ) → (u.owner j ≡ s.owner j) ⊎ (j ≡ i)

Attempt-TriesOnly :
    (me : ℕ) (s t : Files) (fd : Option ℕ) (u : Files)
    → ((j : ℕ) → t.owner j ≡ s.owner j)
    → Attempt me t fd u
    → TriesOnly s (fd, u)
Attempt-TriesOnly me s t none u same a = tt
Attempt-TriesOnly me s t (some i) u same a = λ j. ground (arith, a.taken i j, same j)

releases-append :
    (before rest : List Action) → releases rest ≡ true → releases (before ++ rest) ≡ true
releases-append [] rest e = e
releases-append (releases_lock ∷ before) rest e = refl
releases-append (_ ∷ before) rest e = releases-append before rest e

Released-releases : (done : List Action) → Released done → releases done ≡ true
Released-releases done (before, e) = rw e (releases-append before (releases_lock ∷ []) refl)

ended-LeavesNothing :
    (registers : Bool) (i code : ℕ) (t : State) (done : List Action) (s u : Files)
    → releases done ≡ true
    → ((j : ℕ) → (u.owner j ≡ s.owner j) ⊎ (j ≡ i))
    → LeavesNothing s (ended registers (some i) (returns code t done) u)
unfolding ended release_daemon_lock unlock
ended-LeavesNothing true i code t done s u e h = rw e (refl, refl, λ j. ground (arith, h j))
ended-LeavesNothing false i code t done s u e h = rw e (refl, refl, λ j. ground (arith, h j))

outcome-LeavesNothing :
    (registers : Bool) (i code : ℕ) (t : State) (done : List Action) (s u : Files) (o : Outcome)
    → IsTidy o
    → ((j : ℕ) → (u.owner j ≡ s.owner j) ⊎ (j ≡ i))
    → o ≡ returns code t done
    → LeavesNothing s (ended registers (some i) o u)
outcome-LeavesNothing registers i code t done s u o tidy h e =
    let (balance, released, shut) = subst IsTidy e tidy in
    rw e (ended-LeavesNothing registers i code t done s u (Released-releases done released) h)

module _ (long_max ulong_mod : ℕ) (l : Launch) (rounds : List Round) (config : Config) where
  on_lock-LeavesNothing :
      (cache : Cache) (s : Files) (x : Option ℕ × Files) {code : ℕ} {t : State} {done : List Action}
      → TriesOnly s x
      → (on_lock long_max ulong_mod l rounds config cache x).0 ≡ returns code t done
      → code ≢ 3
      → LeavesNothing s (on_lock long_max ulong_mod l rounds config cache x).1
  unfolding on_lock daemon_mode
  on_lock-LeavesNothing cache s (none, u) h e ne = ground arith
  on_lock-LeavesNothing cache s (some i, u) {code} {t} {done} h e ne =
      let hwmon =
        (find_quectel_hwmon_path long_max l.device_readable l.entries true path_max_len cache).0 in
      outcome-LeavesNothing l.registers i code t done s u
        (daemon_mode long_max ulong_mod hwmon false true rounds config)
        (daemon_mode-IsTidy long_max ulong_mod hwmon rounds config) h e

  on_running-LeavesNothing :
      (running : Bool) (cache : Cache) (s u : Files) {code : ℕ} {t : State} {done : List Action}
      → ((j : ℕ) → u.owner j ≡ s.owner j)
      → (on_running long_max ulong_mod l rounds config running cache u).0 ≡ returns code t done
      → code ≢ 3
      → LeavesNothing s (on_running long_max ulong_mod l rounds config running cache u).1
  unfolding on_running daemon_mode
  on_running-LeavesNothing true cache s u same e ne = ground arith
  on_running-LeavesNothing false cache s u same e ne =
      let (fd, v) = acquire_daemon_lock l.calls l.me u in
      on_lock-LeavesNothing cache s (fd, v)
        (Attempt-TriesOnly l.me s u fd v same (acquire-Attempt l.calls l.me u)) e ne

  -- A daemon that exits, and was not refused, leaves no PID file, no lock file, and no lock that was
  -- not there before.
  pub start_daemon-LeavesNothing :
      (cache : Cache) (s : Files) {code : ℕ} {t : State} {done : List Action}
      → (start_daemon long_max ulong_mod l rounds config cache s).0 ≡ returns code t done
      → code ≢ 3
      → LeavesNothing s (start_daemon long_max ulong_mod l rounds config cache s).1
  unfolding start_daemon SameLock
  start_daemon-LeavesNothing cache s e ne =
      let (same, owners) = check-SameLock l.scan_int l.alive s in
      let (running, u) = check_daemon_running l.scan_int l.alive s in
      on_running-LeavesNothing (not (eqb_ℤ running (pos 0))) cache s u owners e ne

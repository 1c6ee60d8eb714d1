-- ===== src/Tests/Lock.antt =====
-- The lock of src/system.c, and the start of the daemon, at concrete files.
use quectel_rm520n_thermal.Base.{
  ℕ, ◌^◌, ◌≡◌, ◌↔◌, ◌==◌, if◌then◌else◌, refl, inl, inr, ℤ, pos, neg, true, false, Option, none,
  some, [], ◌∷◌, arith,
}
use quectel_rm520n_thermal.CString.{Bytes, strtol, Converted, unconverted, converted}
use quectel_rm520n_thermal.Config.{Config, config_set_defaults}
use quectel_rm520n_thermal.Lock.{
  Files, open_named, check_daemon_running, acquire_daemon_lock, release_daemon_lock,
}
use quectel_rm520n_thermal.Lock.Mutex as Mutex
use quectel_rm520n_thermal.Lock.Mutex.{
  World, IsFirst, started, starts, Gets, calls, mutual_exclusion, acquire_iff_free,
}
use quectel_rm520n_thermal.Lock.Overlap as Overlap
use quectel_rm520n_thermal.Lock.Overlap.{System, Pc, pick, opens, locks, running, init, one_owner}
use quectel_rm520n_thermal.Lock.Running.{check_daemon_running-Tells}
use quectel_rm520n_thermal.Lock.Admits.{second_release_admits, overlap_admits}
use quectel_rm520n_thermal.System.{Cache}
use quectel_rm520n_thermal.Daemon.State.{start, releases_lock}
use quectel_rm520n_thermal.Daemon.Loop.{returns}
use quectel_rm520n_thermal.Daemon.Start.{
  Launch, start_daemon, LeavesNothing, start_daemon-LeavesNothing,
}

abbrev long_max : ℕ
long_max = 9223372036854775807

abbrev ulong_mod : ℕ
ulong_mod = 2 ^ 64

abbrev number_of : Converted → Option ℤ
number_of unconverted = none
number_of (converted v range rest) = some v

abbrev pub scan_int : Bytes → Option ℤ
scan_int s = number_of (strtol long_max s)

-- No file is there.
abbrev pub no_files : Files
no_files = record { pid_file = none; lock_file = none; fresh = 0; owner = λ _. none }

abbrev empty : World
empty = record { files = no_files; fds = λ _. none }

empty-IsFirst : IsFirst empty
empty-IsFirst = ((λ p. refl), (λ i. refl), λ i h. ground arith)

-- The process 7 runs.
abbrev seven : World
seven = started (calls true) 7 empty

seven-Reach : Mutex.Reach empty seven
seven-Reach = Mutex.next Mutex.here (starts (calls true) 7 refl)

seven_runs : seven.fds 7 ≡ some 0
unfolding acquire_daemon_lock
seven_runs = refl

mutual_exclusion_example : ◌≡◌ {A = ℕ} 7 7
mutual_exclusion_example = mutual_exclusion 7 7 0 0 empty-IsFirst seven-Reach seven_runs seven_runs

acquire_iff_free_example : Gets true 8 seven.files ↔ ((q : ℕ) → seven.fds q ≡ none)
acquire_iff_free_example = acquire_iff_free true 8 empty-IsFirst seven-Reach

second_release_admits_example :
    let (fd, files) = acquire_daemon_lock (calls true) 9 (release_daemon_lock none seven.files) in
    (fd ≡ some seven.files.fresh)
    × (files.owner seven.files.fresh ≡ some 9)
    × (files.owner 0 ≡ some 7)
second_release_admits_example =
    second_release_admits true 7 9 0 empty-IsFirst seven-Reach seven_runs

one_owner_example : ◌≡◌ {A = ℕ} 7 7
unfolding open_named
one_owner_example =
    one_owner 7 7 0
      (Overlap.next (Overlap.next Overlap.here (pick 7 refl opens))
        (pick 7 refl (locks {i = 0} refl)))
      refl refl

overlap_admits_example :
    (x : System) × Overlap.Reach init x × (x.pcs 2 ≡ running 0) × (x.pcs 3 ≡ running 1)
overlap_admits_example =
    overlap_admits 1 2 3 (λ e. omega arith) (λ e. omega arith) (λ e. omega arith)

abbrev pub launch : Launch
launch = record {
  scan_int = scan_int;
  alive = λ _. false;
  calls = calls true;
  me = 8;
  device_readable = λ _. true;
  entries = none;
  registers = true;
}

abbrev cold : Cache
cold = record { device_num = neg 1; valid = false }

abbrev defaults : Config
defaults = config_set_defaults

-- The process 7 has the lock, and its PID file is gone.
abbrev taken : Files
taken = record {
  pid_file = none;
  lock_file = some 0;
  fresh = 1;
  owner = λ i. if i == 0 then some 7 else none;
}

-- With no rounds the shutdown flag is set at once.
starts_and_ends :
    (start_daemon long_max ulong_mod launch [] defaults cold no_files).0
    ≡ returns 0 (start defaults) (releases_lock ∷ [])
unfolding start_daemon
starts_and_ends = refl

start_daemon-LeavesNothing_example :
    LeavesNothing no_files (start_daemon long_max ulong_mod launch [] defaults cold no_files).1
start_daemon-LeavesNothing_example =
    start_daemon-LeavesNothing long_max ulong_mod launch [] defaults cold no_files starts_and_ends
      (λ e. omega arith)

pub none_alive : (s : Files) → (check_daemon_running scan_int (λ _. false) s).0 ≡ pos 0
none_alive s = elim (check_daemon_running-Tells scan_int (λ _. false) s) [
  | inl (one, same, (text, pid, named, scans, lives)) ↦ absurd (cc lives)
  | inr (zero, no_one, left) ↦ zero
]

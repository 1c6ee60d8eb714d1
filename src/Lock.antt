-- ===== src/Lock.antt =====
-- src/system.c: the PID file and the lock of the daemon. The files of /var/run that they use are
-- explicit: a lock belongs to the file that was opened, not to its name, so the file behind
-- `LOCK_FILE` is a number, and a new file has a number of its own.
pub mod Running
pub mod Mutex
pub mod Overlap
pub mod Admits
use quectel_rm520n_thermal.Base.{
  ℕ, ◌+◌, ◌==◌, ℤ, pos, Bool, true, false, if◌then◌else◌, Option, none, some, [], ◌∷◌,
}
use quectel_rm520n_thermal.CString.{Bytes, print_int}

abbrev pub update {ℓ} : {A : Type ℓ} → (ℕ → A) → ℕ → A → ℕ → A
update f i v j = if j == i then v else f j

-- `PID_FILE` is its content, if it can be read; `LOCK_FILE` the file that it names. `owner` is the
-- process that has the `flock` of a file.
pub record Files : Type 0 where
  pub pid_file : Option Bytes
  pub lock_file : Option ℕ
  pub fresh : ℕ
  pub owner : ℕ → Option ℕ

-- Whether the calls of `acquire_daemon_lock` succeed, as far as that is not for the files to say.
pub record Calls : Type 0 where
  pub opens_lock : Bool
  pub flocks : Bool
  pub opens_pid : Bool

-- `unlink(PID_FILE)` and `unlink(LOCK_FILE)`
abbrev pub unlink_pid : Files → Files
unlink_pid s = record s { pid_file = none }

abbrev pub unlink_lock : Files → Files
unlink_lock s = record s { lock_file = none }

-- `alive pid` is `kill(pid, 0) == 0`.
unfoldable pub on_pid : (ℤ → Bool) → Option ℤ → Files → ℤ × Files
on_pid alive none s = (pos 0, s)
on_pid alive (some pid) s = if alive pid then (pos 1, s) else (pos 0, unlink_pid s)

unfoldable pub on_pid_file : (Bytes → Option ℤ) → (ℤ → Bool) → Option Bytes → Files → ℤ × Files
unfolding on_pid
on_pid_file scan_int alive none s = (pos 0, s)
on_pid_file scan_int alive (some text) s = on_pid alive (scan_int text) s

-- `scan_int` is `fscanf(file, "%d", &pid)`, `some pid` for the result 1.
unfoldable pub check_daemon_running : (Bytes → Option ℤ) → (ℤ → Bool) → Files → ℤ × Files
unfolding on_pid_file
check_daemon_running scan_int alive s = on_pid_file scan_int alive s.pid_file s

-- `open(LOCK_FILE, O_CREAT | O_RDWR, 0600)`, for a name that has a file and for one that has none.
unfoldable pub open_named : Option ℕ → Files → ℕ × Files
open_named (some i) s = (i, s)
open_named none s = (s.fresh, record s { lock_file = some s.fresh; fresh = s.fresh + 1 })

-- `flock(fd, LOCK_EX | LOCK_NB)`, by whether it can succeed and who has the lock.
unfoldable pub flock : Bool → Option ℕ → ℕ → ℕ → Files → Bool × Files
flock false holder me i s = (false, s)
flock true (some p) me i s = (false, s)
flock true none me i s = (true, record s { owner = update s.owner i (some me) })

-- The PID is `me`.
unfoldable pub write_pid : Bool → ℕ → Files → Files
write_pid false me s = s
write_pid true me s = record s { pid_file = some (print_int (pos me) (b'\n' ∷ [])) }

-- What follows on the `flock`.
unfoldable pub on_flock : Bool → ℕ → ℕ → Bool × Files → Option ℕ × Files
unfolding write_pid
on_flock opens_pid me i (false, s) = (none, s)
on_flock opens_pid me i (true, s) = (some i, write_pid opens_pid me s)

unfoldable pub on_open : Calls → ℕ → ℕ × Files → Option ℕ × Files
unfolding flock on_flock
on_open c me (i, s) = on_flock c.opens_pid me i (flock c.flocks (s.owner i) me i s)

-- `daemon_lock_fd`, as the file that it stands for, and `some` for the result 0.
unfoldable pub acquire_daemon_lock : Calls → ℕ → Files → Option ℕ × Files
unfolding on_open open_named
acquire_daemon_lock c me s =
    if c.opens_lock then on_open c me (open_named s.lock_file s) else (none, s)

-- `flock(daemon_lock_fd, LOCK_UN)` and `close`; a process that ends loses its lock alike.
unfoldable pub unlock : Option ℕ → Files → Files
unlock none s = s
unlock (some i) s = record s { owner = update s.owner i none }

-- `daemon_lock_fd` is -1 behind it.
unfoldable pub release_daemon_lock : Option ℕ → Files → Files
unfolding unlock
release_daemon_lock daemon_lock_fd s = unlink_lock (unlink_pid (unlock daemon_lock_fd s))

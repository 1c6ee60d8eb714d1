-- ===== src/Lock/Running.antt =====
-- `check_daemon_running` of src/system.c: what its answer says of the PID file.
use quectel_rm520n_thermal.Base.{
  ℕ, ◌≡◌, ◌⊎◌, refl, inl, inr, ℤ, pos, Bool, true, Option, none, some, [], ◌∷◌, arith, Bool-cases,
}
use quectel_rm520n_thermal.CString.{Bytes, print_int}
use quectel_rm520n_thermal.Lock.{
  Files, Calls, unlink_pid, on_pid, on_pid_file, check_daemon_running, open_named, flock, write_pid,
  on_flock, on_open, acquire_daemon_lock,
}

-- The PID file has the number of a process that lives.
abbrev pub NamesLiving : (Bytes → Option ℤ) → (ℤ → Bool) → Option Bytes → Type 0
NamesLiving scan_int alive file =
    (text : Bytes) × (pid : ℤ) × (file ≡ some text)
    × (scan_int text ≡ some pid)
    × (alive pid ≡ true)

-- What the two answers say: 1 that the file names a process that lives, and stays; 0 that it does not,
-- and that it stays if it has no number.
abbrev pub Tells : (Bytes → Option ℤ) → (ℤ → Bool) → Files → ℤ × Files → Type 0
Tells scan_int alive s (answer, t) =
    ((answer ≡ pos 1) × (t ≡ s) × NamesLiving scan_int alive s.pid_file)
    ⊎ ((answer ≡ pos 0) × ¬ NamesLiving scan_int alive s.pid_file × ((t ≡ s) ⊎ (t ≡ unlink_pid s)))

module _ (scan_int : Bytes → Option ℤ) (alive : ℤ → Bool) where
  on_pid-Tells :
      (s : Files) (text : Bytes) (o : Option ℤ)
      → s.pid_file ≡ some text
      → scan_int text ≡ o
      → Tells scan_int alive s (on_pid alive o s)
  unfolding on_pid
  on_pid-Tells s text none named scans = inr (refl, (λ (t, pid, e, f, l). ground arith), inl refl)
  on_pid-Tells s text (some pid) named scans = elim (Bool-cases (alive pid)) [
    | inl lives ↦ rw lives (inl (refl, refl, (text, pid, named, scans, lives)))
    | inr dead ↦ rw dead (inr (refl, (λ (t, p, e, f, l). ground arith), inr refl))
  ]

  on_pid_file-Tells :
      (s : Files) (o : Option Bytes)
      → s.pid_file ≡ o
      → Tells scan_int alive s (on_pid_file scan_int alive o s)
  unfolding on_pid_file
  on_pid_file-Tells s none named = inr (refl, (λ (t, p, e, f, l). cc), inl refl)
  on_pid_file-Tells s (some text) named = on_pid-Tells s text (scan_int text) named refl

  -- The answer is 1 exactly if the PID file has the number of a process that lives; then the file
  -- stays. Else the answer is 0, and at most the PID file is removed.
  pub check_daemon_running-Tells :
      (s : Files) → Tells scan_int alive s (check_daemon_running scan_int alive s)
  unfolding check_daemon_running
  check_daemon_running-Tells s = on_pid_file-Tells s s.pid_file refl

  -- A daemon that has got the lock, and could write its PID file, is found as long as it lives.
  pub check-acquire :
      (c : Calls) (me i : ℕ) (s : Files)
      → c.opens_pid ≡ true
      → (acquire_daemon_lock c me s).0 ≡ some i
      → scan_int (print_int (pos me) (b'\n' ∷ [])) ≡ some (pos me)
      → alive (pos me) ≡ true
      → (check_daemon_running scan_int alive (acquire_daemon_lock c me s).1).0 ≡ pos 1
  unfolding acquire_daemon_lock on_open open_named on_flock flock write_pid check_daemon_running
      on_pid_file on_pid
  check-acquire c me i s opens got scans lives = ground arith

-- ===== src/Main/Standing.antt =====
-- src/main.c: what the status command says.
use quectel_rm520n_thermal.Base.{
  ℕ, ◌-◌, ◌≡◌, ◌⊎◌, inl, inr, refl, ◌∙◌, ◌==◌, leb, ◌||◌, ap, ℤ, List, [], ◌∷◌, ◌++◌, Bool-cases,
}
use quectel_rm520n_thermal.CString.{Bytes}
use quectel_rm520n_thermal.Lock.{Files, check_daemon_running}
use quectel_rm520n_thermal.Lock.Running.{NamesLiving, Tells, check_daemon_running-Tells}
use quectel_rm520n_thermal.System.{prepend, fgets_all}
use quectel_rm520n_thermal.Main.Options.{Output, running, stopped}
use quectel_rm520n_thermal.Main.Report.{Ended, exited}
use quectel_rm520n_thermal.Main.Status.{View, on_daemon_status, status}

-- A daemon runs, and the command says so and ends with 0; or none does, it says that, and ends with 1.
abbrev pub IsTrue : View → Files → Ended → Type 0
IsTrue v files e =
    (((outs : List Output) × (e ≡ exited 0 (running ∷ outs)))
      × NamesLiving v.scan_int v.alive files.pid_file)
    ⊎ ((e ≡ exited 1 (stopped ∷ [])) × ¬ NamesLiving v.scan_int v.alive files.pid_file)

told-IsTrue :
    (long_max : ℕ) (v : View) (files : Files) (x : ℤ × Files)
    → Tells v.scan_int v.alive files x
    → IsTrue v files (on_daemon_status long_max v x)
unfolding on_daemon_status
told-IsTrue m v files (answer, u) (inl (one, same, living)) = rw one (inl ((_, refl), living))
told-IsTrue m v files (answer, u) (inr (zero, dead, left)) = rw zero (inr (refl, dead))

-- The status command tells the truth of the PID file: 0 and "running" exactly if it has the number of
-- a process that lives, else 1 and "stopped"; that it cannot tell is never said.
pub status-IsTrue :
    (long_max : ℕ) (v : View) (files : Files) → IsTrue v files (status long_max v files)
unfolding status
status-IsTrue m v files =
    told-IsTrue m v files (check_daemon_running v.scan_int v.alive files)
      (check_daemon_running-Tells v.scan_int v.alive files)

abbrev concat : List Bytes → Bytes
concat [] = []
concat (line ∷ lines) = line ++ concat lines

concat-prepend : (c : ℕ) (lines : List Bytes) → concat (prepend c lines) ≡ c ∷ concat lines
concat-prepend c [] = refl
concat-prepend c (line ∷ lines) = refl

-- The lines that `fgets` gives are the whole text.
pub concat-fgets_all : (size left : ℕ) (s : Bytes) → concat (fgets_all size left s) ≡ s
unfolding fgets_all
concat-fgets_all size left [] = refl
concat-fgets_all size left (c ∷ s) = elim (Bool-cases (c == b'\n' || leb left 1)) [
  | inl ends ↦ rw ends (ap (◌∷◌ c) (concat-fgets_all size (size - 1) s))
  | inr more ↦ rw more (
      concat-prepend c (fgets_all size (left - 1) s)
      ∙ ap (◌∷◌ c) (concat-fgets_all size (left - 1) s))
]

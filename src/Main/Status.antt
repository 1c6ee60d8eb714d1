-- ===== src/Main/Status.antt =====
-- src/main.c: the status command.
use quectel_rm520n_thermal.Base.{
  ℕ, ◌+◌, ◌-◌, ℤ, pos, eqb_ℤ, Bool, true, false, if◌then◌else◌, Option, none, some, List, [], ◌∷◌,
  ◌++◌,
}
use quectel_rm520n_thermal.CString.{Bytes, codes, contains}
use quectel_rm520n_thermal.Lock.{Files, check_daemon_running}
use quectel_rm520n_thermal.System.{path_max_len, strip_newline, first_line, fgets_all}
use quectel_rm520n_thermal.Main.Options.{
  Output, running, stopped, unclear, pid, temperature, statistics, stats_line, modules,
}
use quectel_rm520n_thermal.Main.Report.{Ended, exited, atoi}

-- `SMALL_BUFFER_LEN`, and the size of `stats_line`.
abbrev pub small_buffer_len : ℕ
small_buffer_len = 32

abbrev pub stats_line_size : ℕ
stats_line_size = 256

-- What the command meets; a file that cannot be opened is `none`.
pub record View : Type 0 where
  pub scan_int : Bytes → Option ℤ  -- `fscanf(file, "%d", &pid)`
  pub alive : ℤ → Bool  -- `kill(pid, 0) == 0`
  pub temp_accessible : Bool  -- `access(path, R_OK) == 0`
  pub temp_file : Option Bytes
  pub stats_accessible : Bool
  pub stats_file : Option Bytes
  pub modules_file : Option Bytes

unfoldable pub stats_lines : List Bytes → List Output
unfolding strip_newline
stats_lines [] = []
stats_lines (line ∷ lines) = stats_line (strip_newline line) ∷ stats_lines lines

unfoldable pub count_modules : List Bytes → ℕ
unfolding contains
count_modules [] = 0
count_modules (line ∷ lines) =
    (if contains (codes "quectel_rm520n_temp") line then 1 else 0) + count_modules lines

abbrev pub pid_output : Option ℤ → List Output
pid_output none = []
pid_output (some n) = pid n ∷ []

abbrev pub scanned_pid : (Bytes → Option ℤ) → Option Bytes → Option ℤ
scanned_pid scan_int none = none
scanned_pid scan_int (some text) = scan_int text

unfoldable pub stats_output : Bool → Option Bytes → List Output
unfolding fgets_all stats_lines
stats_output false file = []
stats_output true none = []
stats_output true (some content) =
    statistics ∷ stats_lines (fgets_all stats_line_size (stats_line_size - 1) content)

unfoldable pub modules_output : Option Bytes → List Output
unfolding fgets_all count_modules
modules_output none = []
modules_output (some content) =
    modules (count_modules (fgets_all path_max_len (path_max_len - 1) content)) ∷ []

module _ (long_max : ℕ) where
  abbrev temp_line_output : Option Bytes → List Output
  temp_line_output none = []
  temp_line_output (some line) = temperature (atoi long_max line) ∷ []

  unfoldable pub temp_output : Bool → Option Bytes → List Output
  unfolding first_line atoi
  temp_output false file = []
  temp_output true none = []
  temp_output true (some content) = temp_line_output (first_line small_buffer_len content)

  unfoldable pub on_daemon_status : View → ℤ × Files → Ended
  unfolding temp_output stats_output modules_output
  on_daemon_status v (daemon_status, files) =
      if eqb_ℤ daemon_status (pos 1)
      then exited 0 (
          running
          ∷ (pid_output (scanned_pid v.scan_int files.pid_file)
              ++ (temp_output v.temp_accessible v.temp_file
                  ++ (stats_output v.stats_accessible v.stats_file
                      ++ modules_output v.modules_file))))
      else if eqb_ℤ daemon_status (pos 0)
      then exited 1 (stopped ∷ [])
      else exited 1 (unclear ∷ [])

  unfoldable pub status : View → Files → Ended
  unfolding on_daemon_status check_daemon_running
  status v files = on_daemon_status v (check_daemon_running v.scan_int v.alive files)

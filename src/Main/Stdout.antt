-- ===== src/Main/Stdout.antt =====
-- src/main.c: what the program writes to its standard output. Complaints go to the standard error.
pub mod Json
pub mod Plain
pub mod Reads
pub mod Watching
use quectel_rm520n_thermal.Base.{ℕ, ℤ, pos, Bool, true, false, if◌then◌else◌, List, [], ◌∷◌, ◌++◌}
use quectel_rm520n_thermal.CString.{Bytes, codes, decimal, print_int}
use quectel_rm520n_thermal.Ui.{Package, printed, print_version, print_usage}
use quectel_rm520n_thermal.Main.Options.{
  Output, version_text, usage_text, complaint, threshold, debug_warning, monitoring, json_reading,
  live_reading, plain_reading, gave_up, sleeps, newline, running, stopped, unclear, pid,
  temperature, statistics, stats_line, modules,
}
use quectel_rm520n_thermal.Main.Watch.{max_failures}

-- A reading as JSON.
unfoldable pub json_text : Bytes → Bool → ℕ → Bytes
unfolding decimal
json_text temp_str ok now = printed (
    codes "{\n"
    ∷ codes "  \"temperature\": \""
    ∷ temp_str
    ∷ codes "\",\n"
    ∷ codes "  \"status\": \""
    ∷ (if ok then codes "ok" else codes "error")
    ∷ codes "\",\n"
    ∷ codes "  \"timestamp\": \""
    ∷ decimal now []
    ∷ codes "\"\n"
    ∷ codes "}\n"
    ∷ [])

-- The end of a watch as JSON.
unfoldable pub failure_text : ℕ → Bytes
unfolding decimal
failure_text now = printed (
    codes "{\n"
    ∷ codes "  \"error\": \"serial_failure\",\n"
    ∷ codes "  \"message\": \""
    ∷ decimal max_failures []
    ∷ codes " consecutive serial failures\",\n"
    ∷ codes "  \"timestamp\": \""
    ∷ decimal now []
    ∷ codes "\"\n"
    ∷ codes "}\n"
    ∷ [])

-- What the texts depend on: `argv[0]`, the build, `strftime` on the local time, and "%.1f" of a
-- thousandth.
pub record Printing : Type 0 where
  pub progname : Bytes
  pub build : Package
  pub clock : ℕ → Bytes
  pub tenths : ℤ → Bytes

module _ (w : Printing) where
  unfoldable pub stdout : Output → Bytes
  unfolding print_version print_usage json_text failure_text print_int decimal
  stdout version_text = print_version w.build
  stdout usage_text = print_usage w.progname
  stdout complaint = []
  stdout (threshold p) = []
  stdout debug_warning = []
  stdout (monitoring interval) =
      codes "Monitoring temperature at "
      ++ print_int interval (codes " seconds interval (press Ctrl+C to exit)...\n")
  stdout (json_reading temp_str ok now) = json_text temp_str ok now
  stdout (live_reading now temp_str) =
      b'\r' ∷ 27 ∷ (codes "[K[" ++ (w.clock now ++ (codes "] Temperature: " ++ temp_str)))
  stdout (plain_reading temp_str) = temp_str ++ codes "\n"
  stdout (gave_up true now) = failure_text now
  stdout (gave_up false now) = []
  stdout (sleeps interval) = []
  stdout newline = codes "\n"
  stdout running = codes "Status: running\n"
  stdout stopped = codes "Status: stopped\nDaemon is not running\n"
  stdout unclear = codes "Status: error\nUnable to determine daemon status\n"
  stdout (pid n) = codes "PID: " ++ print_int n (codes "\n")
  stdout (temperature n) =
      codes "Temperature: "
      ++ print_int n
          (codes " m" ++ (194 ∷ 176 ∷ (codes "C (" ++ (w.tenths n ++ (194 ∷ 176 ∷ codes "C)\n")))))
  stdout statistics = codes "\nKernel module statistics:\n"
  stdout (stats_line line) = codes "  " ++ (line ++ codes "\n")
  stdout (modules n) = codes "Kernel modules: " ++ print_int (pos n) (codes " loaded\n")

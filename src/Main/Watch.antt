-- ===== src/Main/Watch.antt =====
-- src/main.c: the loop of the watch mode. Behind the last pass the shutdown flag is set.
use quectel_rm520n_thermal.Base.{ℕ, ◌+◌, leb, if◌then◌else◌, List, [], ◌∷◌, ◌++◌}
use quectel_rm520n_thermal.CString.{Bytes}
use quectel_rm520n_thermal.Cli.{
  Code, cli_success, cli_err_serial, cli_err_other, Globals, Read, read, waits, cli_mode,
}
use quectel_rm520n_thermal.Main.Options.{
  Flags, Output, monitoring, json_reading, live_reading, gave_up, sleeps, newline,
}
use quectel_rm520n_thermal.Main.Report.{
  temp_str_size, Ended, exited, waiting, Pass, is_success, convert,
}

abbrev pub max_failures : ℕ
max_failures = 3

module _ (long_max : ℕ) (f : Flags) where
  unfoldable pub shown_reading : Code → Bytes → ℕ → Output
  unfolding convert
  shown_reading result temp_str now =
      let text = convert long_max f result temp_str in
      if f.json_output then json_reading text (is_success result) now else live_reading now text

  -- What a pass prints, with its sleep.
  abbrev pub pass_output : Code → Bytes → ℕ → Globals → List Output
  pass_output result temp_str now g =
      shown_reading result temp_str now ∷ sleeps g.config.interval ∷ []

  -- What the loop does with a result, by `consecutive_failures`; `loop` is the rest of it.
  abbrev pub on_result : (ℕ → Globals → List Output → Ended) → ℕ → ℕ → Read → List Output → Ended
  on_result loop now fails (waits g) done = waiting done
  on_result loop now fails (read cli_err_serial temp_str g) done =
      if leb max_failures (fails + 1)
      then exited 1 (done ++ gave_up f.json_output now ∷ [])
      else loop (fails + 1) g done
  on_result loop now fails (read cli_err_other temp_str g) done =
      loop 0 g (done ++ pass_output cli_err_other temp_str now g)
  on_result loop now fails (read cli_success temp_str g) done =
      loop 0 g (done ++ pass_output cli_success temp_str now g)

  unfoldable pub watch_loop : List Pass → ℕ → Globals → List Output → Ended
  unfolding shown_reading cli_mode
  watch_loop [] fails g done = exited 0 (done ++ (if f.json_output then [] else newline ∷ []))
  watch_loop (p ∷ ps) fails g done =
      on_result (watch_loop ps) p.now fails (cli_mode long_max temp_str_size p.scene g) done

  unfoldable pub watch_mode : List Pass → Globals → List Output → Ended
  unfolding watch_loop
  watch_mode ps g done =
      watch_loop ps 0 g (done ++ (if f.json_output then [] else monitoring g.config.interval ∷ []))

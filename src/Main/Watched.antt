-- ===== src/Main/Watched.antt =====
-- src/main.c: what holds of all that the watch mode gives, from its parts.
use quectel_rm520n_thermal.Base.{
  ℕ, ◌+◌, leb, Bool-cases, inl, inr, if◌then◌else◌, List, [], ◌∷◌, ◌++◌, All,
}
use quectel_rm520n_thermal.Cli.{
  cli_success, cli_err_serial, cli_err_other, Globals, Read, read, waits, cli_mode,
}
use quectel_rm520n_thermal.Main.Options.{Flags, Output, monitoring, gave_up, newline}
use quectel_rm520n_thermal.Main.Report.{temp_str_size, Ended, exited, waiting, Pass}
use quectel_rm520n_thermal.Main.Watch.{max_failures, pass_output, on_result, watch_loop, watch_mode}

module _ (Good : List Output → Type 0) where
  abbrev pub EndedGood : Ended → Type 0
  EndedGood (exited code outs) = Good outs
  EndedGood (waiting outs) = Good outs

  module _ (long_max : ℕ) (f : Flags) where
    -- What the pass of a result gives.
    abbrev pub ReadGood : ℕ → Read → Type 0
    ReadGood now (waits g) = Unit
    ReadGood now (read cli_err_serial text g) = Unit
    ReadGood now (read cli_err_other text g) =
        Good (pass_output long_max f cli_err_other text now g)
    ReadGood now (read cli_success text g) = Good (pass_output long_max f cli_success text now g)

    abbrev pub PassGood : Pass → Type 0
    PassGood p = (g : Globals) → ReadGood p.now (cli_mode long_max temp_str_size p.scene g)

    module _ (joined : (xs ys : List Output) → Good xs → Good ys → Good (xs ++ ys))
        (greeting : (g : Globals)
          → Good (if f.json_output then [] else monitoring g.config.interval ∷ []))
        (farewell : Good (if f.json_output then [] else newline ∷ []))
        (surrender : (now : ℕ) → Good (gave_up f.json_output now ∷ [])) where
      on_result-Good :
          (loop : ℕ → Globals → List Output → Ended) (now fails : ℕ) (x : Read) (done : List Output)
          → ReadGood now x
          → Good done
          → ((m : ℕ) (g : Globals) (outs : List Output) → Good outs → EndedGood (loop m g outs))
          → EndedGood (on_result long_max f loop now fails x done)
      on_result-Good loop now fails (waits g) done h good ih = good
      on_result-Good loop now fails (read cli_err_serial text g) done h good ih =
          elim (Bool-cases (leb max_failures (fails + 1))) [
            | inl last ↦ rw last (joined done _ good (surrender now))
            | inr more ↦ rw more (ih (fails + 1) g done good)
          ]
      on_result-Good loop now fails (read cli_err_other text g) done h good ih =
          ih 0 g _ (joined done _ good h)
      on_result-Good loop now fails (read cli_success text g) done h good ih =
          ih 0 g _ (joined done _ good h)

      watch_loop-Good :
          (ps : List Pass) (fails : ℕ) (g : Globals) (done : List Output)
          → All PassGood ps
          → Good done
          → EndedGood (watch_loop long_max f ps fails g done)
      unfolding watch_loop
      watch_loop-Good [] fails g done h good = joined done _ good farewell
      watch_loop-Good (p ∷ ps) fails g done (h, hs) good =
          on_result-Good (watch_loop long_max f ps) p.now fails
            (cli_mode long_max temp_str_size p.scene g) done (h g) good
            (λ m g' outs good'. watch_loop-Good ps m g' outs hs good')

      -- What joining keeps holds of all that the watch gives, if it holds of the first and the last
      -- text and of each pass.
      pub watch_mode-Good :
          (ps : List Pass) (g : Globals)
          → All PassGood ps
          → EndedGood (watch_mode long_max f ps g [])
      unfolding watch_mode
      watch_mode-Good ps g h = watch_loop-Good ps 0 g _ h (greeting g)

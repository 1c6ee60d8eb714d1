-- ===== src/Main/Patience.antt =====
-- src/main.c: how long the watch mode goes on without a reading.
use quectel_rm520n_thermal.Base.{
  total-append, ℕ, suc, subst, ◌+◌, ◌*◌, ◌≤◌, ◌≡◌, refl, ℤ, leb, Bool, true, false, if◌then◌else◌,
  List, [], ◌∷◌, ◌++◌, length, arith, Bool-cases, inl, inr,
}
use quectel_rm520n_thermal.CString.{Bytes}
use quectel_rm520n_thermal.Cli.{
  cli_success, cli_err_serial, cli_err_other, Globals, Read, read, waits, cli_mode,
}
use quectel_rm520n_thermal.Main.Options.{Flags, Output, monitoring, gave_up, newline}
use quectel_rm520n_thermal.Main.Report.{temp_str_size, Ended, exited, waiting, Pass}
use quectel_rm520n_thermal.Main.Watch.{max_failures, on_result, watch_loop, watch_mode}
use quectel_rm520n_thermal.Main.Pacing.{one_if_reading, readings, readings-pass_output}

module _ (long_max : ℕ) (f : Flags) where
  -- Of the passes that a watch goes through till its shutdown, at most three to a reading, with two
  -- behind the last.
  abbrev Progress : ℕ → ℕ → List Output → Ended → Type 0
  Progress n fails done (exited code outs) =
      (code ≡ 0) → n + 3 * readings done + fails ≤ 3 * readings outs + 2
  Progress n fails done (waiting outs) = Unit

  next-Progress :
      (n fails : ℕ) (done more : List Output) (e : Ended)
      → fails ≤ 2
      → readings more ≡ 1
      → Progress n 0 (done ++ more) e
      → Progress (n + 1) fails done e
  next-Progress n fails done more (exited code outs) h k ih =
      λ z. omega (arith, ih z, total-append one_if_reading done more)
  next-Progress n fails done more (waiting outs) h k ih = tt

  retry-Progress :
      (n fails : ℕ) (done : List Output) (e : Ended)
      → Progress n (fails + 1) done e
      → Progress (n + 1) fails done e
  retry-Progress n fails done (exited code outs) ih = λ z. omega (arith, ih z)
  retry-Progress n fails done (waiting outs) ih = tt

  on_result-Progress :
      (loop : ℕ → Globals → List Output → Ended) (n now fails : ℕ) (x : Read) (done : List Output)
      → fails ≤ 2
      → ((m : ℕ) (g : Globals) (outs : List Output) → m ≤ 2 → Progress n m outs (loop m g outs))
      → Progress (n + 1) fails done (on_result long_max f loop now fails x done)
  on_result-Progress loop n now fails (waits g) done h ih = tt
  on_result-Progress loop n now fails (read cli_err_serial text g) done h ih =
      elim (Bool-cases (leb max_failures (fails + 1))) [
        | inl last ↦ rw last (λ z. absurd (omega arith))
        | inr more ↦ rw more (retry-Progress n fails done _ (ih (fails + 1) g done (ground arith)))
      ]
  on_result-Progress loop n now fails (read cli_err_other text g) done h ih =
      next-Progress n fails done _ _ h (readings-pass_output long_max f cli_err_other text now g)
        (ih 0 g _ (omega arith))
  on_result-Progress loop n now fails (read cli_success text g) done h ih =
      next-Progress n fails done _ _ h (readings-pass_output long_max f cli_success text now g)
        (ih 0 g _ (omega arith))

  plus_one :
      (n fails : ℕ) (done : List Output) (e : Ended)
      → Progress (n + 1) fails done e
      → Progress (suc n) fails done e
  plus_one n fails done (exited code outs) h = λ z. omega (arith, h z)
  plus_one n fails done (waiting outs) h = tt

  ended-Progress :
      (n : ℕ) (done : List Output) (e : Ended) (outs : List Output)
      → readings done ≡ 0
      → e ≡ exited 0 outs
      → Progress n 0 done e
      → n ≤ 3 * readings outs + 2
  ended-Progress n done e outs none_yet same h =
      let at : Progress n 0 done (exited 0 outs) = subst (Progress n 0 done) same h in
      omega (arith, at refl)

  watch_loop-Progress :
      (ps : List Pass) (fails : ℕ) (g : Globals) (done : List Output)
      → fails ≤ 2
      → Progress (length ps) fails done (watch_loop long_max f ps fails g done)
  unfolding watch_loop
  watch_loop-Progress [] fails g done h = λ z.
      omega (arith, total-append one_if_reading done (if f.json_output then [] else newline ∷ []))
  watch_loop-Progress (p ∷ ps) fails g done h = plus_one (length ps) fails done _ (
      on_result-Progress (watch_loop long_max f ps) (length ps) p.now fails
        (cli_mode long_max temp_str_size p.scene g) done h
        (λ m k outs few. watch_loop-Progress ps m k outs few))

  greeting_none : (json : Bool) (v : ℤ) → readings (if json then [] else monitoring v ∷ []) ≡ 0
  greeting_none true v = refl
  greeting_none false v = refl

  -- A watch that ends by its shutdown has printed a reading in every three passes: of the passes that
  -- it went through, there are at most three to a reading, and two behind the last.
  pub watch_mode_progress :
      (ps : List Pass) (g : Globals) {outs : List Output}
      → watch_mode long_max f ps g [] ≡ exited 0 outs
      → length ps ≤ 3 * readings outs + 2
  unfolding watch_mode
  watch_mode_progress ps g {outs} e =
      let first = if f.json_output then [] else monitoring g.config.interval ∷ [] in
      ended-Progress (length ps) first _ outs (greeting_none f.json_output g.config.interval) e
        (watch_loop-Progress ps 0 g first (omega arith))

  -- A pass whose port or modem does not answer, whatever the globals are.
  abbrev pub Fails : Pass → Type 0
  Fails p =
      (g : Globals)
      → (text : Bytes) × (h : Globals) × (cli_mode long_max temp_str_size p.scene g
          ≡ read cli_err_serial text h)

  -- Three passes in a row whose port or modem does not answer end the watch with status 1, without a
  -- reading and without a sleep.
  pub watch_mode_gives_up :
      (a b c : Pass) (rest : List Pass) (g : Globals)
      → Fails a
      → Fails b
      → Fails c
      → watch_mode long_max f (a ∷ b ∷ c ∷ rest) g []
        ≡ exited 1 (
            (if f.json_output then [] else monitoring g.config.interval ∷ [])
            ++ gave_up f.json_output c.now ∷ [])
  unfolding watch_mode watch_loop
  watch_mode_gives_up a b c rest g fa fb fc =
      let (ta, ha, ea) = fa g in
      let (tb, hb, eb) = fb ha in let (tc, hc, ec) = fc hb in rw (ea, eb, ec) refl

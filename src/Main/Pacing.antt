-- ===== src/Main/Pacing.antt =====
-- src/main.c: the pace of the watch mode.
use quectel_rm520n_thermal.Base.{
  ℕ, ◌≡◌, refl, ℤ, ◌≤ℤ◌, Bool, true, false, if◌then◌else◌, List, [], ◌∷◌, ◌++◌, All, All-append,
  total, total-append, arith, Bool-cases, inl, inr, subst, sym,
}
use quectel_rm520n_thermal.CString.{Bytes}
use quectel_rm520n_thermal.Config.{Config, interval_min, interval_max}
use quectel_rm520n_thermal.Config.Validity.{IsValid}
use quectel_rm520n_thermal.Cli.{
  Code, cli_success, cli_err_serial, cli_err_other, Globals, Read, read, waits, reloaded, cli_mode,
}
use quectel_rm520n_thermal.Cli.Settings.{HasConfig, cli_mode-HasConfig, reloaded-IsValid}
use quectel_rm520n_thermal.Main.Options.{
  Flags, Output, monitoring, json_reading, live_reading, sleeps, newline,
}
use quectel_rm520n_thermal.Main.Report.{temp_str_size, Ended, Pass}
use quectel_rm520n_thermal.Main.Watched.{EndedGood, ReadGood, PassGood, watch_mode-Good}
use quectel_rm520n_thermal.Main.Watch.{shown_reading, pass_output, watch_mode}

-- A sleep takes one second to an hour.
abbrev pub IsPause : Output → Type 0
IsPause (sleeps v) = (interval_min ≤ℤ v) × (v ≤ℤ interval_max)
IsPause _ = Unit

abbrev pub one_if_reading : Output → ℕ
one_if_reading (json_reading text ok now) = 1
one_if_reading (live_reading now text) = 1
one_if_reading _ = 0

abbrev pub one_if_pause : Output → ℕ
one_if_pause (sleeps v) = 1
one_if_pause _ = 0

abbrev pub readings : List Output → ℕ
readings = total one_if_reading

-- As many sleeps as readings, each of one second to an hour.
abbrev pub IsPaced : List Output → Type 0
IsPaced outs = All IsPause outs × (readings outs ≡ total one_if_pause outs)

abbrev pub EndedPaced : Ended → Type 0
EndedPaced = EndedGood IsPaced

append-IsPaced : (xs ys : List Output) → IsPaced xs → IsPaced ys → IsPaced (xs ++ ys)
append-IsPaced xs ys (h, k) (h', k') = (
  All-append IsPause xs ys h h',
  omega (arith, total-append one_if_reading xs ys, total-append one_if_pause xs ys),
)

module _ (long_max : ℕ) (f : Flags) where
  pass_output-IsPaced :
      (code : Code) (text : Bytes) (now : ℕ) (g : Globals)
      → IsValid g.config
      → IsPaced (pass_output long_max f code text now g)
  unfolding shown_reading
  pass_output-IsPaced code text now g v = elim (Bool-cases f.json_output) [
    | inl json ↦ rw json ((tt, ((v.interval_low, v.interval_high), tt)), refl)
    | inr plain ↦ rw plain ((tt, ((v.interval_low, v.interval_high), tt)), refl)
  ]

  -- The loop goes on behind a reading and its sleep.
  pub readings-pass_output :
      (code : Code) (text : Bytes) (now : ℕ) (g : Globals)
      → readings (pass_output long_max f code text now g) ≡ 1
  unfolding shown_reading
  readings-pass_output code text now g = ground arith

  finish-IsPaced : (json : Bool) → IsPaced (if json then [] else newline ∷ [])
  finish-IsPaced true = (tt, refl)
  finish-IsPaced false = ((tt, tt), refl)

  greeting-IsPaced : (json : Bool) (v : ℤ) → IsPaced (if json then [] else monitoring v ∷ [])
  greeting-IsPaced true v = (tt, refl)
  greeting-IsPaced false v = ((tt, tt), refl)

  read-ReadGood :
      (now : ℕ) (x : Read) (c : Config)
      → HasConfig c x
      → IsValid c
      → ReadGood IsPaced long_max f now x
  read-ReadGood now (waits g) c e v = tt
  read-ReadGood now (read cli_err_serial text g) c e v = tt
  read-ReadGood now (read cli_err_other text g) c e v =
      pass_output-IsPaced cli_err_other text now g (subst IsValid (sym e) v)
  read-ReadGood now (read cli_success text g) c e v =
      pass_output-IsPaced cli_success text now g (subst IsValid (sym e) v)

  every-PassGood : (ps : List Pass) → All (PassGood IsPaced long_max f) ps
  every-PassGood [] = tt
  every-PassGood (p ∷ ps) = (
    λ g.
        read-ReadGood p.now (cli_mode long_max temp_str_size p.scene g)
          (reloaded long_max temp_str_size p.scene g).config
          (cli_mode-HasConfig long_max temp_str_size p.scene g)
          (reloaded-IsValid long_max temp_str_size p.scene g),
    every-PassGood ps,
  )

  -- Whatever the watch meets, it sleeps as often as it prints a reading, and each sleep takes one
  -- second to an hour, whatever UCI holds then.
  pub watch_mode-EndedPaced :
      (ps : List Pass) (g : Globals) → EndedPaced (watch_mode long_max f ps g [])
  watch_mode-EndedPaced ps g =
      watch_mode-Good IsPaced long_max f append-IsPaced
        (λ h. greeting-IsPaced f.json_output h.config.interval) (finish-IsPaced f.json_output)
        (λ now. ((tt, tt), refl)) ps g (every-PassGood ps)

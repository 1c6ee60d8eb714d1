-- ===== src/Main/Stdout/Watching.antt =====
-- src/main.c: what `read --watch --json` writes.
use quectel_rm520n_thermal.Base.{
  ℕ, ◌≡◌, refl, inl, inr, ◌⊎◌, Bool, true, some, List, [], ◌∷◌, All, All-append, All_mono, ℤ,
  if◌then◌else◌,
}
use quectel_rm520n_thermal.CString.{Bytes}
use quectel_rm520n_thermal.Cli.{
  Code, cli_success, cli_err_serial, cli_err_other, Globals, Read, read, waits,
}
use quectel_rm520n_thermal.Main.Options.{
  Flags, Output, monitoring, json_reading, gave_up, sleeps, newline,
}
use quectel_rm520n_thermal.Main.Report.{Pass, is_success, convert}
use quectel_rm520n_thermal.Main.Watch.{pass_output, shown_reading, watch_mode}
use quectel_rm520n_thermal.Main.Watched.{EndedGood, ReadGood, watch_mode-Good}
use quectel_rm520n_thermal.Main.Stdout.{Printing, stdout}
use quectel_rm520n_thermal.Main.Stdout.Json.{
  Members, read_object, members_of, IsPlain, read_object-json_text, read_object-failure_text,
}
use quectel_rm520n_thermal.Main.Stdout.Plain.{
  PlainFiles, TextIsPlain, cli_mode-IsPlain, convert-IsPlain,
}

module _ (w : Printing) where
  -- Nothing is written, or one object.
  abbrev pub IsJson : Output → Type 0
  IsJson o = (stdout w o ≡ []) ⊎ ((ms : Members) × (read_object (stdout w o) ≡ some ms))

  reading-IsJson :
      (text : Bytes) (ok : Bool) (now : ℕ) → All IsPlain text → IsJson (json_reading text ok now)
  unfolding stdout
  reading-IsJson text ok now h = inr (members_of text ok now, read_object-json_text text ok now h)

  gave_up-IsJson : (now : ℕ) → IsJson (gave_up true now)
  unfolding stdout
  gave_up-IsJson now = inr (_, read_object-failure_text now)

  sleeps-IsJson : (v : ℤ) → IsJson (sleeps v)
  unfolding stdout
  sleeps-IsJson v = inl refl

  module _ (long_max : ℕ) (f : Flags) (json : f.json_output ≡ true) where
    silent : (outs : List Output) → All IsJson (if f.json_output then [] else outs)
    silent outs = rw json tt

    pass-IsJson :
        (code : Code) (text : Bytes) (now : ℕ) (g : Globals)
        → All IsPlain text
        → All IsJson (pass_output long_max f code text now g)
    unfolding shown_reading
    pass-IsJson code text now g h = rw json (
      reading-IsJson (convert long_max f code text) (is_success code) now
          (convert-IsPlain long_max f code text h),
      (sleeps-IsJson g.config.interval, tt),
    )

    TextIsPlain-ReadGood :
        (now : ℕ) (x : Read) → TextIsPlain x → ReadGood (All IsJson) long_max f now x
    TextIsPlain-ReadGood now (waits g) h = tt
    TextIsPlain-ReadGood now (read cli_err_serial text g) h = tt
    TextIsPlain-ReadGood now (read cli_err_other text g) h = pass-IsJson cli_err_other text now g h
    TextIsPlain-ReadGood now (read cli_success text g) h = pass-IsJson cli_success text now g h

    -- With `--json`, where the files of the daemon are plain in each pass, every text that the watch
    -- writes, its end after too many failures with it, is one JSON object or empty.
    pub watch_mode-IsJson :
        (ps : List Pass) (g : Globals)
        → All (λ (p : Pass). PlainFiles p.scene) ps
        → EndedGood (All IsJson) (watch_mode long_max f ps g [])
    watch_mode-IsJson ps g files =
        watch_mode-Good (All IsJson) long_max f (All-append IsJson)
          (λ g'. silent (monitoring g'.config.interval ∷ [])) (silent (newline ∷ []))
          (λ now. rw json (gave_up-IsJson now, tt)) ps g
          (All_mono _ _
            (λ p plain g'.
              TextIsPlain-ReadGood p.now _ (cli_mode-IsPlain long_max p.scene g' plain))
            ps files)

-- ===== src/Main/Stdout/Reads.antt =====
-- src/main.c: what `read --json` writes, next to what `read` writes.
use quectel_rm520n_thermal.Base.{
  ℕ, ◌≡◌, refl, ap, ◌∙◌, append-nil, ◌==◌, Bool, true, false, some, List, [], ◌∷◌, ◌++◌, All,
}
use quectel_rm520n_thermal.CString.{Bytes, codes}
use quectel_rm520n_thermal.Cli.{
  cli_success, cli_err_serial, cli_err_other, Globals, Read, read, waits, cli_mode,
}
use quectel_rm520n_thermal.Main.Options.{Flags, Output, json_reading, plain_reading}
use quectel_rm520n_thermal.Main.Report.{
  temp_str_size, Ended, exited, waiting, Pass, convert, on_single, read_once,
}
use quectel_rm520n_thermal.Main.Stdout.{Printing, json_text, stdout}
use quectel_rm520n_thermal.Main.Stdout.Json.{
  read_object, members_of, IsPlain, read_object-json_text,
}
use quectel_rm520n_thermal.Main.Stdout.Plain.{
  PlainFiles, TextIsPlain, cli_mode-IsPlain, convert-IsPlain,
}

module _ (w : Printing) where
  -- All that the program writes.
  unfoldable pub written : List Output → Bytes
  unfolding stdout
  written [] = []
  written (o ∷ outs) = stdout w o ++ written outs

  -- With the first end an object is written whose temperature is the line that is written with the
  -- second end, and whose status tells the status of the program.
  abbrev pub Agrees : ℕ → Ended → Ended → Type 0
  Agrees now (exited code outs) (exited other_code other_outs) =
      (code ≡ other_code)
      × ((text : Bytes) × (written other_outs ≡ text ++ codes "\n")
          × (read_object (written outs) ≡ some (members_of text (code == 0) now)))
  Agrees now (waiting outs) (waiting other_outs) = (outs ≡ []) × (other_outs ≡ [])
  Agrees now _ _ = ⊥

  object_written :
      (text : Bytes) (ok : Bool) (now : ℕ)
      → All IsPlain text
      → read_object (written (json_reading text ok now ∷ [])) ≡ some (members_of text ok now)
  unfolding written stdout
  object_written text ok now h =
      ap read_object (append-nil (json_text text ok now)) ∙ read_object-json_text text ok now h

  line_written : (text : Bytes) → written (plain_reading text ∷ []) ≡ text ++ codes "\n"
  unfolding written stdout
  line_written text = append-nil (text ++ codes "\n")

  module _ (long_max : ℕ) (f : Flags) where
    on_single-Agrees :
        (now : ℕ) (x : Read)
        → TextIsPlain x
        → Agrees now
            (on_single long_max (record f { json_output = true }) now x)
            (on_single long_max (record f { json_output = false }) now x)
    unfolding on_single convert
    on_single-Agrees now (waits g) h = (refl, refl)
    on_single-Agrees now (read cli_success text g) h =
        let same = convert long_max f cli_success text in
        (
          refl,
          (
            same,
            line_written same,
            object_written same true now (convert-IsPlain long_max f cli_success text h),
          ),
        )
    on_single-Agrees now (read cli_err_serial text g) h =
        (refl, (text, line_written text, object_written text false now h))
    on_single-Agrees now (read cli_err_other text g) h =
        (refl, (text, line_written text, object_written text false now h))

    -- `read --json` writes one JSON object, and tells with it what `read` tells without it: where the
    -- files of the daemon are plain, it ends with the same status, the member "temperature" is the
    -- line that is written without it, "status" says "ok" exactly if the status is 0, and
    -- "timestamp" is the time. While the modem's answer is waited for, neither writes anything.
    pub read_once_json :
        (p : Pass) (g : Globals)
        → PlainFiles p.scene
        → Agrees p.now
            (read_once long_max (record f { json_output = true }) p g)
            (read_once long_max (record f { json_output = false }) p g)
    unfolding read_once
    read_once_json p g files =
        on_single-Agrees p.now (cli_mode long_max temp_str_size p.scene g)
          (cli_mode-IsPlain long_max p.scene g files)

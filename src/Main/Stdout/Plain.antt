-- ===== src/Main/Stdout/Plain.antt =====
-- Which texts `cli_mode` of src/cli.c gives where the files of the daemon are plain.
use quectel_rm520n_thermal.Base.{
  ℕ, ◌-◌, ◌≡◌, refl, ◌==◌, ◌||◌, ◌&&◌, not, true, Bool-cases, inl, inr, Option, none, some, [], ◌∷◌,
  All, All-take, subst, arith,
}
use quectel_rm520n_thermal.CString.{Bytes, strcmp_eq}
use quectel_rm520n_thermal.System.{strip_newline, first_line}
use quectel_rm520n_thermal.Cli.{
  Code, cli_success, cli_err_serial, cli_err_other, Scene, Globals, Read, read, waits,
  not_available, cli_mode,
}
use quectel_rm520n_thermal.Cli.Reading.{IsBlank, IsLine, IsTraced, cli_mode-IsTraced}
use quectel_rm520n_thermal.Main.Options.{Flags}
use quectel_rm520n_thermal.Main.Report.{temp_str_size, is_success, atoi, whole_degrees, convert}
use quectel_rm520n_thermal.Main.Stdout.Json.{is_plain, IsPlain, print_int-IsPlain}

-- A byte of a file of plain lines.
abbrev pub IsOfLine : ℕ → Type 0
IsOfLine c = (is_plain c || c == b'\n') ≡ true

abbrev pub PlainFile : Option Bytes → Type 0
PlainFile none = Unit
PlainFile (some content) = All IsOfLine content

-- The files of the daemon have plain lines.
abbrev pub PlainFiles : Scene → Type 0
PlainFiles sc = PlainFile sc.temp_file × ((path : Bytes) → PlainFile (sc.hwmon_file path))

strip_newline-IsPlain : (s : Bytes) → All IsOfLine s → All IsPlain (strip_newline s)
unfolding strip_newline
strip_newline-IsPlain [] h = tt
strip_newline-IsPlain (c ∷ s) (h, hs) = elim (Bool-cases (c == b'\n')) [
  | inl ends ↦ rw ends tt
  | inr more ↦ rw more (ground arith, strip_newline-IsPlain s hs)
]

first_line-IsPlain :
    (size : ℕ) (content text : Bytes)
    → All IsOfLine content
    → first_line size content ≡ some text
    → All IsPlain text
unfolding first_line
first_line-IsPlain size [] text h e = cc
first_line-IsPlain size (c ∷ s) text h e =
    subst (λ (t : Bytes). All IsPlain t) (ground arith)
      (strip_newline-IsPlain _ (All-take IsOfLine (size - 1) (c ∷ s) h))

IsLine-IsPlain :
    (size : ℕ) (file : Option Bytes) (text : Bytes)
    → PlainFile file
    → IsLine size file text
    → All IsPlain text
IsLine-IsPlain size none text h (content, e, line) = cc
IsLine-IsPlain size (some content) text h (same, e, line) =
    let back : same ≡ content = cc in
    first_line-IsPlain size content text h
      (subst (λ (t : Bytes). first_line size t ≡ some text) back line)

blank-IsPlain : (text : Bytes) → IsBlank text → All IsPlain text
blank-IsPlain text (inl e) = rw e (refl, (refl, (refl, tt)))
blank-IsPlain text (inr e) = rw e (refl, tt)

-- The text of each result.
abbrev pub TextIsPlain : Read → Type 0
TextIsPlain (read code text g) = All IsPlain text
TextIsPlain (waits g) = Unit

IsTraced-IsPlain :
    (sc : Scene) (x : Read) → PlainFiles sc → IsTraced temp_str_size sc x → TextIsPlain x
IsTraced-IsPlain sc (read cli_success text g) (temp, hwmon) (inl (na, nz, inl line)) =
    IsLine-IsPlain temp_str_size sc.temp_file text temp line
IsTraced-IsPlain sc (read cli_success text g) (temp, hwmon) (inl (na, nz, inr (path, line))) =
    IsLine-IsPlain temp_str_size (sc.hwmon_file path) text (hwmon path) line
IsTraced-IsPlain sc (read cli_success text g) files (inr (v, range, e)) = rw e (print_int-IsPlain v)
IsTraced-IsPlain sc (read cli_err_serial text g) files blank = blank-IsPlain text blank
IsTraced-IsPlain sc (read cli_err_other text g) files e = blank-IsPlain text (inl e)
IsTraced-IsPlain sc (waits g) files h = tt

module _ (long_max : ℕ) where
  pub cli_mode-IsPlain :
      (sc : Scene) (g : Globals)
      → PlainFiles sc
      → TextIsPlain (cli_mode long_max temp_str_size sc g)
  cli_mode-IsPlain sc g files =
      IsTraced-IsPlain sc (cli_mode long_max temp_str_size sc g) files
        (cli_mode-IsTraced long_max temp_str_size (omega arith) sc g)

  pub convert-IsPlain :
      (f : Flags) (result : Code) (text : Bytes)
      → All IsPlain text
      → All IsPlain (convert long_max f result text)
  unfolding convert
  convert-IsPlain f result text h =
      elim (Bool-cases
        (is_success result && f.celsius_output && not (strcmp_eq text not_available))) [
          | inl degrees ↦
              rw degrees
                (All-take IsPlain 63 _ (print_int-IsPlain (whole_degrees (atoi long_max text))))
          | inr kept ↦ rw kept h
        ]

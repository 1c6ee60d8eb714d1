-- ===== src/Main/Report.antt =====
-- src/main.c: one reading, converted and printed.
use quectel_rm520n_thermal.Base.{
  ℕ, suc, ◌/◌, ℤ, pos, negsuc, neg, Bool, true, false, not, ◌&&◌, if◌then◌else◌, List, [], ◌∷◌,
}
use quectel_rm520n_thermal.CString.{
  Bytes, strcmp_eq, Converted, unconverted, converted, strtol, print_int,
}
use quectel_rm520n_thermal.Config.{safe_strncpy}
use quectel_rm520n_thermal.Cli.{
  Code, cli_success, cli_err_serial, cli_err_other, Scene, Globals, Read, read, waits,
  not_available, cli_mode,
}
use quectel_rm520n_thermal.Main.Options.{Flags, Output, json_reading, plain_reading}

-- `sizeof(temp_str)`
abbrev pub temp_str_size : ℕ
temp_str_size = 64

-- How the program ends: with a status, or not yet.
pub data Ended : Type 0 where
  exited : ℕ → List Output → Ended
  waiting : List Output → Ended

-- What a call meets, with what `time` gives behind it.
pub record Pass : Type 0 where
  pub scene : Scene
  pub now : ℕ

-- `/ 1000` on `int` cuts off towards 0.
unfoldable pub whole_degrees : ℤ → ℤ
whole_degrees (pos n) = pos (n / 1000)
whole_degrees (negsuc n) = neg (suc n / 1000)

abbrev pub value_of : Converted → ℤ
value_of unconverted = pos 0
value_of (converted v range rest) = v

abbrev pub is_success : Code → Bool
is_success cli_success = true
is_success cli_err_serial = false
is_success cli_err_other = false

module _ (long_max : ℕ) where
  -- `atoi`, for the number of an `int`.
  unfoldable pub atoi : Bytes → ℤ
  unfolding strtol
  atoi text = value_of (strtol long_max text)

  -- The conversion to degrees, and `snprintf` into `temp_str`.
  unfoldable pub convert : Flags → Code → Bytes → Bytes
  unfolding atoi whole_degrees strcmp_eq
  convert f result temp_str =
      if is_success result && f.celsius_output && not (strcmp_eq temp_str not_available)
      then safe_strncpy temp_str_size (print_int (whole_degrees (atoi temp_str)) [])
      else temp_str

  unfoldable pub on_single : Flags → ℕ → Read → Ended
  unfolding convert
  on_single f now (waits g) = waiting []
  on_single f now (read result temp_str g) =
      let text = convert f result temp_str in
      exited (if is_success result then 0 else 1) (
        (if f.json_output then json_reading text (is_success result) now else plain_reading text)
        ∷ [])

  -- A single read.
  unfoldable pub read_once : Flags → Pass → Globals → Ended
  unfolding on_single cli_mode
  read_once f p g = on_single f p.now (cli_mode long_max temp_str_size p.scene g)

-- ===== src/Main/Options.antt =====
-- src/main.c: the options, and what the program prints.
use quectel_rm520n_thermal.Base.{ℕ, ℤ, Bool, true, false, Option, none, some, List, [], ◌∷◌}
use quectel_rm520n_thermal.CString.{Bytes}
use quectel_rm520n_thermal.Config.{
  Speed, Priority, Config, config_string_len, safe_strncpy, config_parse_baud_rate,
}

-- What `getopt_long` returns, with `optarg`.
pub data Opt : Type 0 where
  port : Option Bytes → Opt
  baud : Option Bytes → Opt
  json debug celsius watch version help unknown : Opt

-- `json_output`, `verbose_output`, `celsius_output` and `watch_mode`
pub record Flags : Type 0 where
  pub json_output : Bool
  pub verbose_output : Bool
  pub celsius_output : Bool
  pub watch_mode : Bool

abbrev pub no_flags : Flags
no_flags = record {
  json_output = false;
  verbose_output = false;
  celsius_output = false;
  watch_mode = false;
}

pub data Output : Type 0 where
  version_text usage_text complaint : Output
  threshold : Priority → Output  -- `ulog_threshold`
  debug_warning : Output
  monitoring : ℤ → Output
  json_reading : Bytes → Bool → ℕ → Output  -- the temperature, whether it is "ok", the time
  live_reading : ℕ → Bytes → Output
  plain_reading : Bytes → Output
  gave_up : Bool → ℕ → Output  -- in JSON or not, the time
  sleeps : ℤ → Output
  newline : Output
  running stopped unclear : Output
  pid : ℤ → Output
  temperature : ℤ → Output
  statistics : Output
  stats_line : Bytes → Output
  modules : ℕ → Output

-- The end of the loop over the options: an exit status, or the flags and the settings.
pub data Parsed : Type 0 where
  stops : ℕ → List Output → Parsed
  parsed : Flags → Config → Parsed

-- What `config_parse_baud_rate` gives; `loop` is the rest of the loop.
abbrev pub with_speed : (Config → Parsed) → Option Speed → Config → Parsed
with_speed loop none c = stops 2 (complaint ∷ [])
with_speed loop (some speed) c = loop (record c { baud_rate = speed })

module _ (long_max : ℕ) where
  unfoldable pub parse_options : List Opt → Flags → Config → Parsed
  unfolding config_parse_baud_rate
  parse_options [] f c = parsed f c
  parse_options (port none ∷ rest) f c = stops 2 (complaint ∷ [])
  parse_options (port (some optarg) ∷ rest) f c =
      parse_options rest f (record c { serial_port = safe_strncpy config_string_len optarg })
  parse_options (baud none ∷ rest) f c = stops 2 (complaint ∷ [])
  parse_options (baud (some optarg) ∷ rest) f c =
      with_speed (parse_options rest f) (config_parse_baud_rate long_max (some optarg)) c
  parse_options (json ∷ rest) f c = parse_options rest (record f { json_output = true }) c
  parse_options (debug ∷ rest) f c = parse_options rest (record f { verbose_output = true }) c
  parse_options (celsius ∷ rest) f c = parse_options rest (record f { celsius_output = true }) c
  parse_options (watch ∷ rest) f c = parse_options rest (record f { watch_mode = true }) c
  parse_options (version ∷ rest) f c = stops 0 (version_text ∷ [])
  parse_options (help ∷ rest) f c = stops 0 (usage_text ∷ [])
  parse_options (unknown ∷ rest) f c = stops 2 (complaint ∷ [])

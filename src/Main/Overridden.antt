-- ===== src/Main/Overridden.antt =====
-- src/main.c: `-p` and `-b` beside the settings that are read behind them.
use quectel_rm520n_thermal.Base.{
  ℕ, ◌≡◌, refl, Bool, true, false, if◌then◌else◌, Option, none, some, List, [], ◌∷◌, Option-cases,
  inl, inr,
}
use quectel_rm520n_thermal.Config.{Speed, Config, config_parse_baud_rate}
use quectel_rm520n_thermal.Kmod.Defs.{Kernel}
use quectel_rm520n_thermal.UciConfig.Values.{Numbers, Outside}
use quectel_rm520n_thermal.Cli.{Globals}
use quectel_rm520n_thermal.Cli.Settings.{config_read_uci_same}
use quectel_rm520n_thermal.Main.Options.{
  Opt, port, baud, json, debug, celsius, watch, version, help, unknown, Flags, no_flags, Output,
  Parsed, stops, parsed, parse_options,
}
use quectel_rm520n_thermal.Main.Run.{World, on_parsed, main}

-- The flags or the exit are the same, and the settings are those of the second.
data Alike : Parsed → Parsed → Type 0 where
  both_stop : {code : ℕ} {done : List Output} → Alike (stops code done) (stops code done)
  both_parsed : {f : Flags} {c d : Config} → Alike (parsed f c) (parsed f d)

module _ (long_max : ℕ) where
  abbrev is_some : Option Speed → Bool
  is_some none = false
  is_some (some speed) = true

  -- An option `-p` with an argument, or `-b` with one that is a speed.
  abbrev pub sets_port : Opt → Bool
  sets_port (port (some optarg)) = true
  sets_port (baud (some optarg)) = is_some (config_parse_baud_rate long_max (some optarg))
  sets_port _ = false

  unfoldable pub without : List Opt → List Opt
  without [] = []
  without (o ∷ rest) = if sets_port o then without rest else o ∷ without rest

  parse-without :
      (opts : List Opt) (f : Flags) (c d : Config)
      → Alike (parse_options long_max opts f c) (parse_options long_max (without opts) f d)
  unfolding parse_options without
  parse-without [] f c d = both_parsed
  parse-without (port none ∷ rest) f c d = both_stop
  parse-without (port (some a) ∷ rest) f c d = parse-without rest f _ d
  parse-without (baud none ∷ rest) f c d = both_stop
  parse-without (baud (some a) ∷ rest) f c d =
      elim (Option-cases (config_parse_baud_rate long_max (some a))) [
        | inl e ↦ rw (e, e) both_stop
        | inr (s, e) ↦ rw e (parse-without rest f _ d)
      ]
  parse-without (json ∷ rest) f c d = parse-without rest _ c d
  parse-without (debug ∷ rest) f c d = parse-without rest _ c d
  parse-without (celsius ∷ rest) f c d = parse-without rest _ c d
  parse-without (watch ∷ rest) f c d = parse-without rest _ c d
  parse-without (version ∷ rest) f c d = both_stop
  parse-without (help ∷ rest) f c d = both_stop
  parse-without (unknown ∷ rest) f c d = both_stop

module _ (long_max ulong_mod : ℕ) (k : Kernel) (n : Numbers) (o : Outside) (w : World) where
  on_parsed-Alike :
      (g : Globals) {x y : Parsed}
      → Alike x y
      → on_parsed long_max ulong_mod k n o w g x ≡ on_parsed long_max ulong_mod k n o w g y
  unfolding on_parsed
  on_parsed-Alike g both_stop = refl
  on_parsed-Alike g (both_parsed {f} {c} {d}) = rw (config_read_uci_same long_max w.uci c d) refl

  -- The options `-p` and `-b` change nothing of what the program does, whatever speed and port they
  -- name, as long as their arguments can be read.
  pub main-without :
      (opts : List Opt) (g : Globals)
      → main long_max ulong_mod k n o w opts g
        ≡ main long_max ulong_mod k n o w (without long_max opts) g
  unfolding main
  main-without opts g = on_parsed-Alike g (parse-without long_max opts no_flags g.config g.config)

-- ===== src/Main/Guards.antt =====
-- src/main.c: what starts the daemon, and what writes to the kernel modules.
use mathlib.Core.List.{Mem}
use quectel_rm520n_thermal.Base.{
  ℕ, ◌≡◌, ◌⊎◌, refl, ◌∙◌, Bool, true, false, ◌||◌, Option, none, some, List, [], ◌∷◌, arith,
  Bool-cases, inl, inr, sym,
}
use quectel_rm520n_thermal.CString.{Bytes, codes}
use quectel_rm520n_thermal.CString.Search.{strcmp_eq_iff}
use quectel_rm520n_thermal.Config.{Speed, Config, config_parse_baud_rate}
use quectel_rm520n_thermal.Kmod.Defs.{Kernel}
use quectel_rm520n_thermal.UciConfig.Values.{Numbers, Outside}
use quectel_rm520n_thermal.Cli.{Globals}
use quectel_rm520n_thermal.Daemon.State.{updates_modules}
use quectel_rm520n_thermal.Daemon.Threshold.{done_of}
use quectel_rm520n_thermal.Main.Options.{
  Opt, port, baud, json, debug, celsius, watch, version, help, unknown, Flags, no_flags, Output,
  Parsed, parsed, with_speed, parse_options,
}
use quectel_rm520n_thermal.Main.Run.{
  World, Result, command, configured, daemon, Command, daemon_command, read_command, config_command,
  status_command, no_command, command_of, dispatch, on_parsed, main,
}

-- The options that a daemon does not take.
abbrev pub for_read : Opt → Bool
for_read json = true
for_read celsius = true
for_read watch = true
for_read _ = false

abbrev pub any : (Opt → Bool) → List Opt → Bool
any p [] = false
any p (o ∷ rest) = p o || any p rest

-- The test for them on the flags.
abbrev reads : Flags → Bool
reads f = f.json_output || f.celsius_output || f.watch_mode

abbrev ReadsFrom : Bool → Parsed → Type 0
ReadsFrom b (Parsed.stops code done) = Unit
ReadsFrom b (parsed f c) = reads f ≡ b

ReadsFrom-same : (a b : Bool) (x : Parsed) → a ≡ b → ReadsFrom a x → ReadsFrom b x
ReadsFrom-same a b (Parsed.stops code done) e h = tt
ReadsFrom-same a b (parsed f c) e h = h ∙ e

or_true : (a b : Bool) → (a || (true || b)) ≡ true
or_true true b = refl
or_true false b = refl

with_speed-ReadsFrom :
    (loop : Config → Parsed) (s : Option Speed) (c : Config) (b : Bool)
    → ((d : Config) → ReadsFrom b (loop d))
    → ReadsFrom b (with_speed loop s c)
with_speed-ReadsFrom loop none c b ih = tt
with_speed-ReadsFrom loop (some s) c b ih = ih _

parse-ReadsFrom :
    (long_max : ℕ) (opts : List Opt) (f : Flags) (c : Config)
    → ReadsFrom (reads f || any for_read opts) (parse_options long_max opts f c)
unfolding parse_options
parse-ReadsFrom m [] f c = ground arith
parse-ReadsFrom m (port none ∷ rest) f c = tt
parse-ReadsFrom m (port (some a) ∷ rest) f c = parse-ReadsFrom m rest f _
parse-ReadsFrom m (baud none ∷ rest) f c = tt
parse-ReadsFrom m (baud (some a) ∷ rest) f c =
    with_speed-ReadsFrom (parse_options m rest f) (config_parse_baud_rate m (some a)) c _
      (λ d. parse-ReadsFrom m rest f d)
parse-ReadsFrom m (json ∷ rest) f c =
    ReadsFrom-same _ _ (parse_options m rest (record f { json_output = true }) c) (ground arith)
      (parse-ReadsFrom m rest (record f { json_output = true }) c)
parse-ReadsFrom m (debug ∷ rest) f c = parse-ReadsFrom m rest (record f { verbose_output = true }) c
parse-ReadsFrom m (celsius ∷ rest) f c =
    ReadsFrom-same _ _ (parse_options m rest (record f { celsius_output = true }) c) (ground arith)
      (parse-ReadsFrom m rest (record f { celsius_output = true }) c)
parse-ReadsFrom m (watch ∷ rest) f c =
    ReadsFrom-same _ _ (parse_options m rest (record f { watch_mode = true }) c) (ground arith)
      (parse-ReadsFrom m rest (record f { watch_mode = true }) c)
parse-ReadsFrom m (version ∷ rest) f c = tt
parse-ReadsFrom m (help ∷ rest) f c = tt
parse-ReadsFrom m (unknown ∷ rest) f c = tt

-- The commands that change something, by the argument that they stand for.
command_names :
    (a : Option Bytes)
    → (command_of a ≡ daemon_command → a ≡ some (codes "daemon"))
      × (command_of a ≡ config_command → a ≡ some (codes "config"))
unfolding command_of
command_names none = (λ e. cc e, λ e. cc e)
command_names (some s) = (
  λ e. ground (arith, strcmp_eq_iff s (codes "daemon")),
  λ e. ground (arith, strcmp_eq_iff s (codes "config")),
)

-- The command "daemon" without those options.
abbrev pub AsDaemon : List Opt → Option Bytes → Type 0
AsDaemon opts a = (a ≡ some (codes "daemon")) × (any for_read opts ≡ false)

-- The program has run `uci_config_mode`, which writes the thresholds: as the command "config", or as
-- a daemon whose settings have changed.
abbrev pub Updates : Result → Type 0
Updates (command done e) = ⊥
Updates (configured done x) = Unit
Updates (daemon done x) = Mem updates_modules (done_of x.0)

abbrev pub Becomes : Result → Type 0
Becomes (daemon done x) = Unit
Becomes _ = ⊥

-- What the program may do, by its arguments.
abbrev pub IsGuarded : List Opt → Option Bytes → Result → Type 0
IsGuarded opts a r =
    (Updates r → (a ≡ some (codes "config")) ⊎ AsDaemon opts a) × (Becomes r → AsDaemon opts a)

abbrev IsNamed : List Opt → Option Bytes → Result → Type 0
IsNamed opts a (command done e) = Unit
IsNamed opts a (configured done x) = a ≡ some (codes "config")
IsNamed opts a (daemon done x) = AsDaemon opts a

IsNamed-IsGuarded :
    (opts : List Opt) (a : Option Bytes) (r : Result) → IsNamed opts a r → IsGuarded opts a r
IsNamed-IsGuarded opts a (command done e) h = (λ u. absurd u, λ b. absurd b)
IsNamed-IsGuarded opts a (configured done x) h = (λ u. inl h, λ b. absurd b)
IsNamed-IsGuarded opts a (daemon done x) h = (λ u. inr h, λ b. h)

module _ (long_max ulong_mod : ℕ) (k : Kernel) (n : Numbers) (o : Outside) (w : World) where
  dispatch-IsNamed :
      (opts : List Opt) (c : Command) (f : Flags) (g : Globals) (done : List Output)
      → command_of w.command ≡ c
      → reads f ≡ any for_read opts
      → IsNamed opts w.command (dispatch long_max ulong_mod k n o w c f g done)
  unfolding dispatch
  dispatch-IsNamed opts daemon_command f g done e h = elim (Bool-cases (reads f)) [
    | inl wrong ↦ rw wrong tt
    | inr right ↦ rw right ((command_names w.command).0 e, sym h ∙ right)
  ]
  dispatch-IsNamed opts read_command f g done e h = tt
  dispatch-IsNamed opts config_command f g done e h = (command_names w.command).1 e
  dispatch-IsNamed opts status_command f g done e h = tt
  dispatch-IsNamed opts no_command f g done e h = tt

  on_parsed-IsNamed :
      (opts : List Opt) (g : Globals) (x : Parsed)
      → ReadsFrom (any for_read opts) x
      → IsNamed opts w.command (on_parsed long_max ulong_mod k n o w g x)
  unfolding on_parsed
  on_parsed-IsNamed opts g (Parsed.stops code done) h = tt
  on_parsed-IsNamed opts g (parsed f c) h =
      dispatch-IsNamed opts (command_of w.command) f _ _ refl h

  -- The program writes thresholds to the kernel modules only as the command "config", or as a daemon;
  -- and it becomes a daemon only as the command "daemon" with none of
  -- `--json`, `--celsius` and `--watch` among its options, wherever they stand.
  pub main-IsGuarded :
      (opts : List Opt) (g : Globals)
      → IsGuarded opts w.command (main long_max ulong_mod k n o w opts g)
  unfolding main
  main-IsGuarded opts g = IsNamed-IsGuarded opts w.command _ (
      on_parsed-IsNamed opts g (parse_options long_max opts no_flags g.config)
        (parse-ReadsFrom long_max opts no_flags g.config))

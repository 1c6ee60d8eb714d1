-- ===== src/Main/Run.antt =====
-- src/main.c: `main`.
use quectel_rm520n_thermal.Base.{
  ℕ, Bool, ◌||◌, if◌then◌else◌, Option, none, some, List, [], ◌∷◌, ◌++◌,
}
use quectel_rm520n_thermal.CString.{Bytes, codes, strcmp_eq}
use quectel_rm520n_thermal.Config.{
  Priority, log_debug, Config, Uci, config_read_uci, config_parse_log_level,
}
use quectel_rm520n_thermal.Lock.{Files}
use quectel_rm520n_thermal.Kmod.Defs.{Kernel}
use quectel_rm520n_thermal.UciConfig.Values.{Numbers, Outside, Machine, options_of}
use quectel_rm520n_thermal.UciConfig.Passes.{uci_config_mode}
use quectel_rm520n_thermal.Daemon.State.{Round}
use quectel_rm520n_thermal.Daemon.Loop.{Outcome}
use quectel_rm520n_thermal.Daemon.Start.{Launch, start_daemon}
use quectel_rm520n_thermal.Cli.{Globals, config_or}
use quectel_rm520n_thermal.Ui.{check_environment_variables}
use quectel_rm520n_thermal.Main.Options.{
  Opt, Flags, no_flags, Output, complaint, threshold, debug_warning, Parsed, stops, parsed,
  parse_options,
}
use quectel_rm520n_thermal.Main.Report.{Ended, exited, Pass, read_once}
use quectel_rm520n_thermal.Main.Watch.{watch_mode}
use quectel_rm520n_thermal.Main.Status.{View, status}

-- What the program meets. `command` is `argv[optind]`, if there is one.
pub record World : Type 0 where
  pub command : Option Bytes
  pub uci : Uci
  pub debug_set : Bool  -- the environment has DEBUG
  pub pass : Pass
  pub passes : List Pass
  pub machine : Machine
  pub view : View
  pub launch : Launch
  pub rounds : List Round

-- How the program ends, behind what was printed before: as the read or the status command, or a usage
-- error; as the config command, with the kernel modules behind it; or as the daemon, with the files
-- of the lock behind it.
pub data Result : Type 0 where
  command : List Output → Ended → Result
  configured : List Output → ℕ × Machine → Result
  daemon : List Output → Outcome × Files → Result

pub data Command : Type 0 where
  daemon_command read_command config_command status_command no_command : Command

-- The tests of the command by `strcmp`; without a command it is "read".
unfoldable pub command_of : Option Bytes → Command
unfolding strcmp_eq
command_of none = read_command
command_of (some name) =
    if strcmp_eq name (codes "daemon")
    then daemon_command
    else if strcmp_eq name (codes "read")
    then read_command
    else if strcmp_eq name (codes "config")
    then config_command
    else if strcmp_eq name (codes "status")
    then status_command
    else no_command

-- The threshold of the log; `check_environment_variables` comes behind it.
abbrev pub log_threshold : Flags → Config → Priority
log_threshold f c =
    if f.verbose_output then log_debug else config_parse_log_level (some c.log_level)

module _ (long_max ulong_mod : ℕ) (k : Kernel) (n : Numbers) (o : Outside) (w : World) where
  -- The commands. For the daemon, a warning of debug output, and the options that it does not take.
  unfoldable pub dispatch : Command → Flags → Globals → List Output → Result
  unfolding start_daemon read_once watch_mode uci_config_mode options_of status
  dispatch daemon_command f g done =
      let warned =
        done
        ++ (if check_environment_variables w.debug_set f.verbose_output
            then debug_warning ∷ []
            else []) in
      if f.json_output || f.celsius_output || f.watch_mode
      then command warned (exited 2 (complaint ∷ []))
      else daemon warned
          (start_daemon long_max ulong_mod w.launch w.rounds g.config g.cache g.files)
  dispatch read_command f g done =
      command done (
        if f.watch_mode then watch_mode long_max f w.passes g [] else read_once long_max f w.pass g)
  dispatch config_command f g done =
      configured done
        (uci_config_mode k n long_max (record o { options = options_of w.uci }) w.machine)
  dispatch status_command f g done = command done (status long_max w.view g.files)
  dispatch no_command f g done = command done (exited 2 (complaint ∷ []))

  unfoldable pub on_parsed : Globals → Parsed → Result
  unfolding dispatch command_of config_read_uci config_parse_log_level
  on_parsed g (stops code done) = command [] (exited code done)
  on_parsed g (parsed f c) =
      let config = config_or c (config_read_uci long_max w.uci (some c)).1 in
      dispatch (command_of w.command) f (record g { config = config })
        (threshold (log_threshold f config) ∷ [])

  unfoldable pub main : List Opt → Globals → Result
  unfolding on_parsed parse_options
  main opts g = on_parsed g (parse_options long_max opts no_flags g.config)

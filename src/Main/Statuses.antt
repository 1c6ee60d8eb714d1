-- ===== src/Main/Statuses.antt =====
-- src/main.c: the exit statuses of the program.
use quectel_rm520n_thermal.Base.{◌≤◌, ◌≡◌, ◌⊎◌, [], ◌∷◌, All}
use quectel_rm520n_thermal.Config.{Config}
use quectel_rm520n_thermal.Daemon.Statuses.{DaemonStatus}
use quectel_rm520n_thermal.Main.Options.{
  Output, complaint, threshold, debug_warning, Parsed, parsed,
}
use quectel_rm520n_thermal.Main.Report.{Ended, exited, waiting}
use quectel_rm520n_thermal.Main.Run.{Result, command, configured, daemon}

-- What runs as a command ends with 0 or 1, or is waiting.
abbrev EndedStatus : Ended → Type 0
EndedStatus (exited code outs) = code ≤ 1
EndedStatus (waiting outs) = Unit

-- What goes to the log, or sets its threshold.
abbrev pub IsLog : Output → Type 0
IsLog (threshold p) = Unit
IsLog debug_warning = Unit
IsLog _ = ⊥

-- The statuses of the program: 0 or 1, or 2 with a complaint behind what goes to the log, and those
-- of the daemon.
abbrev pub IsDocumented : Result → Type 0
IsDocumented (command done (exited code outs)) =
    (code ≤ 1) ⊎ ((code ≡ 2) × (outs ≡ complaint ∷ []) × All IsLog done)
IsDocumented (command done (waiting outs)) = Unit
IsDocumented (configured done x) = x.0 ≤ 1
IsDocumented (daemon done x) = DaemonStatus x.0

-- The options alone end the program with 0, or with 2 and a complaint.
abbrev ParsedStatus : Parsed → Type 0
ParsedStatus (Parsed.stops code outs) = (code ≤ 1) ⊎ ((code ≡ 2) × (outs ≡ complaint ∷ []))
ParsedStatus (parsed f c) = Unit

-- ===== src/Tests/Main.antt =====
-- src/main.c at concrete arguments.
use quectel_rm520n_thermal.Base.{ℕ, ◌^◌, ◌≡◌, refl, true, false, none, some, List, [], ◌∷◌}
use quectel_rm520n_thermal.CString.{codes}
use quectel_rm520n_thermal.Main.Options.{Opt, port, json, debug, no_flags}
use quectel_rm520n_thermal.Main.Report.{Pass}
use quectel_rm520n_thermal.Main.Watch.{watch_mode}
use quectel_rm520n_thermal.Main.Status.{View, status}
use quectel_rm520n_thermal.Main.Run.{World, main}
use quectel_rm520n_thermal.Main.Guards.{IsGuarded, main-IsGuarded}
use quectel_rm520n_thermal.Main.Overridden.{without, main-without}
use quectel_rm520n_thermal.Main.Pacing.{EndedPaced, watch_mode-EndedPaced}
use quectel_rm520n_thermal.Main.Standing.{IsTrue, status-IsTrue}
use quectel_rm520n_thermal.Tests.Lock.{scan_int, launch}
use quectel_rm520n_thermal.Tests.Platform.{kernel}
use quectel_rm520n_thermal.Tests.Cli.{long_max, scene, globals}
use quectel_rm520n_thermal.Tests.UciConfig.{numbers, given, machine}

abbrev ulong_mod : ℕ
ulong_mod = 2 ^ 64

abbrev pass : Pass
pass = record { scene = scene; now = 5000 }

-- No daemon, and the modem answers.
abbrev alone : Pass
alone = record { scene = record scene { alive = λ _. false }; now = 5000 }

-- No daemon, and no port.
abbrev dead : Pass
dead = record {
  scene = record scene {
    alive = λ _. false;
    device = record { opens = false; attributes = none; sets = false };
  };
  now = 5000;
}

abbrev view : View
view = record {
  scan_int = scan_int;
  alive = λ _. true;
  temp_accessible = true;
  temp_file = some (codes "45000\n");
  stats_accessible = false;
  stats_file = none;
  modules_file = some (codes "quectel_rm520n_temp 1\nother 2\n");
}

abbrev world : World
world = record {
  command = some (codes "daemon");
  uci = scene.uci;
  debug_set = false;
  pass = pass;
  passes = dead ∷ pass ∷ [];
  machine = machine;
  view = view;
  launch = launch;
  rounds = [];
}

main-IsGuarded_example :
    IsGuarded
      (debug ∷ [])
      world.command
      (main long_max ulong_mod kernel numbers given world (debug ∷ []) globals)
main-IsGuarded_example =
    main-IsGuarded long_max ulong_mod kernel numbers given world (debug ∷ []) globals

abbrev with_port : List Opt
with_port = port (some (codes "/dev/ttyUSB3")) ∷ json ∷ []

main-without_example :
    main long_max ulong_mod kernel numbers given world with_port globals
    ≡ main long_max ulong_mod kernel numbers given world (without long_max with_port) globals
main-without_example = main-without long_max ulong_mod kernel numbers given world with_port globals

-- Only the port is taken away.
keeps_json : without long_max with_port ≡ json ∷ []
unfolding without
keeps_json = refl

watch_mode-EndedPaced_example :
    EndedPaced (watch_mode long_max no_flags (dead ∷ pass ∷ []) globals [])
watch_mode-EndedPaced_example = watch_mode-EndedPaced long_max no_flags (dead ∷ pass ∷ []) globals

status-IsTrue_example : IsTrue view globals.files (status long_max view globals.files)
status-IsTrue_example = status-IsTrue long_max view globals.files

-- ===== src/Tests/Stdout.antt =====
-- What src/main.c writes, at concrete arguments.
use quectel_rm520n_thermal.Base.{◌≡◌, refl, true, false, none, some, [], ◌∷◌, All}
use quectel_rm520n_thermal.CString.{codes}
use quectel_rm520n_thermal.Ui.{Package, print_version}
use quectel_rm520n_thermal.Main.Options.{Flags, no_flags}
use quectel_rm520n_thermal.Main.Report.{Pass, read_once}
use quectel_rm520n_thermal.Main.Watch.{watch_mode}
use quectel_rm520n_thermal.Main.Watched.{EndedGood}
use quectel_rm520n_thermal.Main.Stdout.{Printing, json_text}
use quectel_rm520n_thermal.Main.Stdout.Json.{read_object}
use quectel_rm520n_thermal.Main.Stdout.Plain.{PlainFiles}
use quectel_rm520n_thermal.Main.Stdout.Reads.{Agrees, read_once_json}
use quectel_rm520n_thermal.Main.Stdout.Watching.{IsJson, watch_mode-IsJson}
use quectel_rm520n_thermal.Tests.Cli.{long_max, scene, globals}

abbrev built : Package
built = record {
  tag = codes "2.0.0-r0";
  copyright_year = codes "2025";
  maintainer = codes "Christopher Sollinger";
  license = codes "GPL";
}

abbrev printing : Printing
printing = record {
  progname = codes "quectel_rm520n_temp";
  build = built;
  clock = λ now. codes "12:00:00";
  tenths = λ n. codes "45.0";
}

version :
    print_version built
    ≡ codes
        "quectel_rm520n_temp version 2.0.0-r0\nCopyright (C) 2025 Christopher Sollinger\nLicense GPL\n"
unfolding print_version
version = refl

object :
    json_text (codes "45000") true 5000
    ≡ codes
        "{\n  \"temperature\": \"45000\",\n  \"status\": \"ok\",\n  \"timestamp\": \"5000\"\n}\n"
unfolding json_text
object = refl

-- A JSON text with a number, or with a comma at its end, is none that the reader takes.
no_string : read_object (codes "{\"temperature\": 45000}") ≡ none
unfolding read_object
no_string = refl

comma_behind : read_object (codes "{\"status\": \"ok\",}") ≡ none
unfolding read_object
comma_behind = refl

-- The daemon runs, and the file of the sysfs module has a temperature.
abbrev warm : Pass
warm = record { scene = record scene { temp_file = some (codes "45000\n") }; now = 5000 }

warm-PlainFiles : PlainFiles warm.scene
warm-PlainFiles = ((refl, (refl, (refl, (refl, (refl, (refl, tt)))))), λ path. tt)

-- No daemon, and no port.
abbrev cut_off : Pass
cut_off = record {
  scene = record warm.scene {
    alive = λ _. false;
    device = record { opens = false; attributes = none; sets = false };
  };
  now = 5000;
}

read_once_json_example :
    Agrees printing 5000
      (read_once long_max (record no_flags { json_output = true }) warm globals)
      (read_once long_max no_flags warm globals)
read_once_json_example = read_once_json printing long_max no_flags warm globals warm-PlainFiles

abbrev in_json : Flags
in_json = record no_flags { json_output = true }

watch_mode-IsJson_example :
    EndedGood (All (IsJson printing)) (watch_mode long_max in_json (cut_off ∷ warm ∷ []) globals [])
watch_mode-IsJson_example =
    watch_mode-IsJson printing long_max in_json refl (cut_off ∷ warm ∷ []) globals
      (warm-PlainFiles, (warm-PlainFiles, tt))

-- ===== src/Ui.antt =====
-- src/ui.c: the texts of the program, and the look at the environment. What the build puts into the
-- version text is an argument.
use quectel_rm520n_thermal.Base.{Bool, ◌||◌, List, [], ◌∷◌, ◌++◌}
use quectel_rm520n_thermal.CString.{Bytes, codes}

-- `BINARY_NAME`
abbrev pub binary_name : Bytes
binary_name = codes "quectel_rm520n_temp"

-- `PKG_TAG`, `PKG_COPYRIGHT_YEAR`, `PKG_MAINTAINER` and `PKG_LICENSE`
pub record Package : Type 0 where
  pub tag : Bytes
  pub copyright_year : Bytes
  pub maintainer : Bytes
  pub license : Bytes

unfoldable pub print_version : Package → Bytes
print_version p =
    binary_name
    ++ (codes " version "
        ++ (p.tag
            ++ (codes "\nCopyright (C) "
                ++ (p.copyright_year
                    ++ (codes " "
                        ++ (p.maintainer ++ (codes "\nLicense " ++ (p.license ++ codes "\n"))))))))

-- What several calls print, one behind the other.
abbrev pub printed : List Bytes → Bytes
printed [] = []
printed (text ∷ texts) = text ++ printed texts

unfoldable pub print_usage : Bytes → Bytes
print_usage progname = printed (
    codes "Usage: "
    ∷ progname
    ∷ codes " [OPTIONS] <COMMAND>\n\n"
    ∷ codes "Quectel RM520N thermal management tool\n\n"
    ∷ codes "DESCRIPTION\n"
    ∷ codes "  This tool provides both daemon and CLI functionality for monitoring\n"
    ∷ codes "  Quectel RM520N modem temperatures.\n\n"
    ∷ codes "COMMANDS\n"
    ∷ codes "  read               Read current temperature (CLI mode) [default]\n"
    ∷ codes "  daemon             Start daemon mode (background monitoring)\n"
    ∷ codes "  config             Update kernel module thresholds from UCI config\n"
    ∷ codes "  status             Show daemon status and system information\n\n"
    ∷ codes "Options:\n"
    ∷ codes "  -p, --port PORT    Serial port (default: /dev/ttyUSB2)\n"
    ∷ codes "  -b, --baud RATE    Baud rate (default: 115200)\n"
    ∷ codes "  -j, --json         JSON output format (CLI mode only)\n"
    ∷ codes "  -c, --celsius      Return temperature in degrees Celsius (CLI mode only)\n"
    ∷ codes
        "  -w, --watch        Continuously monitor temperature (CLI mode only, respects UCI interval)\n"
    ∷ codes "  -d, --debug        Enable debug output\n"
    ∷ codes "  -V, --version      Show version information\n"
    ∷ codes "  -h, --help         Show this help message\n\n"
    ∷ codes "Examples:\n"
    ∷ codes "  "
    ∷ progname
    ∷ codes "                    # Read temperature (default CLI mode)\n"
    ∷ codes "  "
    ∷ progname
    ∷ codes " read               # Read temperature (explicit CLI mode)\n"
    ∷ codes "  "
    ∷ progname
    ∷ codes " daemon             # Start daemon mode\n"
    ∷ codes "  "
    ∷ progname
    ∷ codes " config             # Update kernel module thresholds\n"
    ∷ codes "  "
    ∷ progname
    ∷ codes " status             # Check daemon status\n"
    ∷ codes "  "
    ∷ progname
    ∷ codes " --json             # Read temperature in JSON format\n"
    ∷ codes "  "
    ∷ progname
    ∷ codes " --celsius          # Return temperature in degrees Celsius\n"
    ∷ codes "  "
    ∷ progname
    ∷ codes " --watch            # Continuously monitor temperature\n"
    ∷ codes "  "
    ∷ progname
    ∷ codes " --watch --celsius  # Monitor temperature in degrees Celsius\n"
    ∷ codes "  "
    ∷ progname
    ∷ codes " --watch --json     # Monitor temperature in JSON format\n"
    ∷ codes "  "
    ∷ progname
    ∷ codes " --port /dev/ttyUSB3 # Read from specific port\n"
    ∷ codes "  "
    ∷ progname
    ∷ codes " --debug            # Enable debug output\n"
    ∷ codes "\n"
    ∷ codes "Exit codes:\n"
    ∷ codes "  0  Success\n"
    ∷ codes "  1  Error (serial communication, parsing, etc.)\n"
    ∷ codes "  2  Invalid arguments or usage error\n"
    ∷ codes "  3  Daemon already running or lock error\n"
    ∷ codes "\n"
    ∷ codes "CONFIGURATION\n"
    ∷ codes "  UCI Config: /etc/config/quectel_rm520n_thermal\n\n"
    ∷ codes "ENVIRONMENT VARIABLES\n"
    ∷ codes "  DEBUG           Enable debug output (same as --debug flag)\n\n"
    ∷ codes "LOGS\n"
    ∷ codes "  Daemon: /var/log/messages (filter: quectel_rm520n_temp)\n"
    ∷ codes "  CLI: stderr (use --debug for more details)\n"
    ∷ [])

-- `verbose_output` behind the look at the environment; the flag says that it has DEBUG.
abbrev pub check_environment_variables : Bool → Bool → Bool
check_environment_variables debug_set verbose_output = verbose_output || debug_set

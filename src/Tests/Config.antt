-- ===== src/Tests/Config.antt =====
-- src/config.c at concrete settings.
use Prim.Native.String.{String}
use quectel_rm520n_thermal.Base.{ℕ, ◌≡◌, refl, if◌then◌else◌, false, Option, none, some}
use quectel_rm520n_thermal.CString.{Bytes, codes, strcmp_eq, strtol, starts_with, strstr, contains}
use quectel_rm520n_thermal.Config.{
  Config, settings, validate_serial_port, config_set_defaults, config_parse_baud_rate,
  config_read_uci,
}
use quectel_rm520n_thermal.Config.Validity.{IsValid, config_read_uci-IsValid}

abbrev long_max : ℕ
long_max = 9223372036854775807

-- UCI with one option set.
abbrev only : String → Bytes → String → Option Bytes
only name text asked = if strcmp_eq (codes asked) (codes name) then some text else none

abbrev defaults : Config
defaults = config_set_defaults

rejects_traversal : validate_serial_port (some (codes "/dev/../etc/passwd")) ≡ false
unfolding validate_serial_port contains starts_with strstr
rejects_traversal = refl

rejects_suffix : config_parse_baud_rate long_max (some (codes "9600bps")) ≡ none
unfolding config_parse_baud_rate strtol
rejects_suffix = refl

config_read_uci-IsValid_example :
    (c : Config) × ((config_read_uci long_max
        (settings (only "serial_port" (codes "/etc/passwd")))
        (some defaults)).1
      ≡ some c)
    × IsValid c
config_read_uci-IsValid_example =
    config_read_uci-IsValid long_max (settings (only "serial_port" (codes "/etc/passwd"))) defaults

-- ===== src/Tests/UciConfig.antt =====
-- src/uci_config.c at concrete settings.
use quectel_rm520n_thermal.Base.{
  ℕ, ◌≡◌, refl, ℤ, pos, neg, ltb_ℤ, scale, true, false, not, ◌||◌, Option, none, some, [], ◌∷◌,
  arith,
}
use quectel_rm520n_thermal.CString.{codes, isdigit, Converted, unconverted, converted, strtol}
use quectel_rm520n_thermal.CString.Decimal.{strtol-print_int}
use quectel_rm520n_thermal.Kmod.Defs.{
  default_temp_default, default_temp_min, default_temp_max, default_temp_crit,
}
use quectel_rm520n_thermal.Kmod.Printed.{ReadsPrinted}
use quectel_rm520n_thermal.Kmod.Sysfs
use quectel_rm520n_thermal.Kmod.Sysfs.Invariant
use quectel_rm520n_thermal.System.{find_quectel_hwmon_device}
use quectel_rm520n_thermal.UciConfig.Values.{
  Floated, unfloated, floated, Numbers, Options, Outside, Machine, option_or,
}
use quectel_rm520n_thermal.UciConfig.Passes.{wanted, chosen_device, uci_config_mode}
use quectel_rm520n_thermal.UciConfig.Writes.{IsOrdered, thresholds_of, with_all, with_upper}
use quectel_rm520n_thermal.UciConfig.TwoPasses.{ScansShown, IsOpen}
use quectel_rm520n_thermal.UciConfig.Transfer.{uci_config_mode-with_all, raised_min_lost}
use quectel_rm520n_thermal.UciConfig.Safety.{BothSound, uci_config_mode-BothSound}
use quectel_rm520n_thermal.Tests.Platform.{kernel}

abbrev long_max : ℕ
long_max = 9223372036854775807

abbrev pub to_floated : Converted → Floated ℤ
to_floated unconverted = unfloated
to_floated (converted v range rest) = floated v range rest

abbrev pub number_of : Converted → Option ℤ
number_of unconverted = none
number_of (converted v range rest) = some v

-- Numbers without a fraction.
abbrev pub numbers : Numbers
numbers = record {
  Double = ℤ;
  strtod = λ s. to_floated (strtol long_max s);
  in_degrees = λ v. not (ltb_ℤ v (neg 40) || ltb_ℤ (pos 125) v);
  millidegrees = λ v. scale 1000 v;
  scan_int = λ s. number_of (strtol long_max s);
}

-- A minimum above the maximum of 75 degrees that the module starts with.
abbrev pub hot : Options
hot = record {
  temp_min = some (codes "80");
  temp_max = some (codes "90");
  temp_crit = some (codes "100");
  temp_default = some (codes "85");
}

-- No hwmon device, and none given.
abbrev pub alone : Outside
alone = record {
  options = hot;
  jiffies = 0;
  has_sysfs = true;
  opens_read = λ _. true;
  opens_write = λ _. true;
  opens_hwmon = λ _ _. true;
  device_readable = λ _. true;
  entries = none;
  override = none;
}

-- The device hwmon3, given by hand.
abbrev pub given : Outside
given = record alone { override = some (codes "3") }

abbrev pub machine : Machine
machine = record {
  sysfs = Sysfs.initial;
  hwmon = record {
    temp = default_temp_default;
    temp_min = default_temp_min;
    temp_max = default_temp_max;
    temp_crit = default_temp_crit;
  };
  cache = record { device_num = neg 1; valid = false };
}

reads_printed : ReadsPrinted kernel
reads_printed v h = rw (strtol-print_int 2147483647 v [] (omega arith) tt) refl

scans_shown : ScansShown kernel numbers
unfolding isdigit
scans_shown v h = rw (strtol-print_int long_max v (b'\n' ∷ []) (omega arith) refl) refl

given-IsOpen : IsOpen given
given-IsOpen = record { present = refl; reads = λ _. refl; writes = λ _. refl }

alone-IsOpen : IsOpen alone
alone-IsOpen = record { present = refl; reads = λ _. refl; writes = λ _. refl }

hot-IsOrdered : IsOrdered (wanted kernel numbers given (thresholds_of Sysfs.initial))
unfolding wanted option_or strtol
hot-IsOrdered = omega arith

uci_config_mode-with_all_example :
    let (r, m') = uci_config_mode kernel numbers long_max given machine in
    (r ≡ 0)
    × (m'.sysfs
        ≡ with_all (wanted kernel numbers given (thresholds_of Sysfs.initial)) Sysfs.initial)
uci_config_mode-with_all_example =
    uci_config_mode-with_all kernel numbers long_max given machine reads_printed scans_shown
      given-IsOpen Invariant.initial-IsSound
      (unfold chosen_device find_quectel_hwmon_device strtol in refl) hot-IsOrdered

raised_min_lost_example :
    let (r, m') = uci_config_mode kernel numbers long_max alone machine in
    (r ≡ 0)
    × (m'.sysfs
        ≡ with_upper (wanted kernel numbers alone (thresholds_of Sysfs.initial)) Sysfs.initial)
raised_min_lost_example =
    raised_min_lost kernel numbers long_max alone machine reads_printed scans_shown alone-IsOpen
      Invariant.initial-IsSound (unfold chosen_device find_quectel_hwmon_device in refl)
      (unfold wanted option_or strtol in omega arith)
      (unfold wanted option_or strtol Sysfs.initial in omega arith)

machine-BothSound : BothSound machine
unfolding Sysfs.initial
machine-BothSound = omega arith

uci_config_mode-BothSound_example :
    BothSound (uci_config_mode kernel numbers long_max given machine).1
uci_config_mode-BothSound_example =
    uci_config_mode-BothSound kernel numbers long_max given machine machine-BothSound

abbrev unloaded : Outside
unloaded = record given { has_sysfs = false }

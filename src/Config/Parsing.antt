-- ===== src/Config/Parsing.antt =====
-- The texts that src/config.c takes as numbers.
use Prim.Native.String.{String}
use quectel_rm520n_thermal.Base.{
  ℕ, ◌≤◌, ◌≡◌, ◌↔◌, refl, ap, ℤ, pos, ◌≤ℤ◌, true, false, Option, some, arith, [], ◌∷◌,
}
use quectel_rm520n_thermal.CString.{Bytes, Converted, unconverted, converted, strtol, print_int}
use quectel_rm520n_thermal.CString.Decimal.{strtol-print_int}
use quectel_rm520n_thermal.Config.{
  Config, Speed, b9600, b19200, b38400, b57600, b115200, speed_of, speed_of_number,
  config_set_defaults, whole_number, settings, interval_min, interval_max, read_settings,
  config_parse_baud_rate, config_read_uci,
}

-- Bits per second.
abbrev pub rate : Speed → ℕ
rate b9600 = 9600
rate b19200 = 19200
rate b38400 = 38400
rate b57600 = 57600
rate b115200 = 115200

speed_of_iff : (v : ℤ) (b : Speed) → (speed_of v ≡ some b) ↔ (v ≡ pos (rate b))
unfolding speed_of
speed_of_iff v b9600 = (λ h. ground arith, λ h. ground arith)
speed_of_iff v b19200 = (λ h. ground arith, λ h. ground arith)
speed_of_iff v b38400 = (λ h. ground arith, λ h. ground arith)
speed_of_iff v b57600 = (λ h. ground arith, λ h. ground arith)
speed_of_iff v b115200 = (λ h. ground arith, λ h. ground arith)

whole_speed_iff :
    (x : Converted) (b : Speed)
    → (speed_of_number (whole_number x) ≡ some b) ↔ (x ≡ converted (pos (rate b)) false [])
whole_speed_iff unconverted b = (λ h. cc, λ h. cc)
whole_speed_iff (converted v true rest) b = (λ h. cc, λ h. cc)
whole_speed_iff (converted v false (c ∷ rest)) b = (λ h. cc, λ h. cc)
whole_speed_iff (converted v false []) b =
    (λ h. ap (λ w. converted w false []) ((speed_of_iff v b).0 h), λ h. (speed_of_iff v b).1 (cc h))

module _ (long_max : ℕ) where
  -- A text is taken as a speed exactly if `strtol` reads the whole of it as that speed's rate.
  pub config_parse_baud_rate_iff :
      (s : Bytes) (b : Speed)
      → (config_parse_baud_rate long_max (some s) ≡ some b)
        ↔ (strtol long_max s ≡ converted (pos (rate b)) false [])
  unfolding config_parse_baud_rate
  config_parse_baud_rate_iff s b = whole_speed_iff (strtol long_max s) b

  interval_set :
      (option : String → Option Bytes) (v : ℤ)
      → 3600 ≤ long_max
      → interval_min ≤ℤ v
      → v ≤ℤ interval_max
      → option "interval" ≡ some (print_int v [])
      → (read_settings long_max option config_set_defaults).interval ≡ v
  unfolding read_settings
  interval_set option v wide low high e =
      rw (e, strtol-print_int long_max v [] (omega arith) tt) (ground arith)

  -- An interval in range that is written in UCI is the interval that is used.
  pub interval_read :
      (option : String → Option Bytes) (old : Config) (v : ℤ)
      → 3600 ≤ long_max
      → interval_min ≤ℤ v
      → v ≤ℤ interval_max
      → option "interval" ≡ some (print_int v [])
      → (c : Config) × (config_read_uci long_max (settings option) (some old) ≡ (true, some c))
        × (c.interval ≡ v)
  unfolding config_read_uci
  interval_read option old v wide low high e = (
    read_settings long_max option config_set_defaults,
    refl,
    interval_set option v wide low high e,
  )

-- ===== src/Main/Degrees.antt =====
-- src/main.c: the temperature in degrees, from the modem's answer to what is printed.
use quectel_rm520n_thermal.Base.{
  ℕ, suc, ◌+◌, ◌*◌, ◌/◌, ◌≤◌, ◌≡◌, ◌⊎◌, inl, inr, refl, ◌∙◌, ap as cong, subst, ℤ, pos, negsuc,
  ◌≤ℤ◌, scale, true, if◌then◌else◌, some, [], ◌∷◌, take-all, arith,
}
use quectel_rm520n_thermal.CString.{Bytes, print_int}
use quectel_rm520n_thermal.CString.Decimal.{strtol-print_int, print_int_short}
use quectel_rm520n_thermal.Kmod.Defs.{InRange, IsInt}
use quectel_rm520n_thermal.Lock.{check_daemon_running}
use quectel_rm520n_thermal.Serial.{answered, c_string, send_at_command}
use quectel_rm520n_thermal.Serial.Tty.{Termios, init_serial_port}
use quectel_rm520n_thermal.Temperature.{extract_temp_values}
use quectel_rm520n_thermal.Temperature.Bounds.{select_best_temperature_max}
use quectel_rm520n_thermal.Daemon.State.{max_response}
use quectel_rm520n_thermal.Daemon.Loop.{at_command, all_wanted, prefixes}
use quectel_rm520n_thermal.Cli.{not_available, Globals, read, cli_success, reloaded, cli_mode}
use quectel_rm520n_thermal.Cli.Direct.{answer_read}
use quectel_rm520n_thermal.Cli.Printed.{printed_ne_na, unequal}
use quectel_rm520n_thermal.Main.Options.{Flags, json_reading, plain_reading}
use quectel_rm520n_thermal.Main.Report.{
  temp_str_size, exited, Pass, whole_degrees, atoi, convert, on_single, read_once,
}

whole_degrees-scale : (d : ℤ) → whole_degrees (scale 1000 d) ≡ d
unfolding whole_degrees
whole_degrees-scale (pos n) = cong pos (omega arith)
whole_degrees-scale (negsuc n) =
    let e : suc (1000 * n + 999) / 1000 ≡ suc n = omega arith in rw e refl

scale_le : (a b : ℤ) → scale 1000 a ≤ℤ scale 1000 b → a ≤ℤ b
scale_le (pos a) (pos b) h = omega arith
scale_le (pos a) (negsuc b) h = omega arith
scale_le (negsuc a) (pos b) h = omega arith
scale_le (negsuc a) (negsuc b) h = omega arith

degrees-IsInt : (d : ℤ) → InRange (scale 1000 d) → IsInt d
degrees-IsInt (pos n) h = omega arith
degrees-IsInt (negsuc n) h = omega arith

below_best :
    (modem ap pa best d : ℤ)
    → scale 1000 modem ≤ℤ best
    → scale 1000 ap ≤ℤ best
    → scale 1000 pa ≤ℤ best
    → best ≡ scale 1000 d
    → (modem ≤ℤ d) × (ap ≤ℤ d) × (pa ≤ℤ d)
below_best modem ap pa best d hm ha hp e = (
  scale_le modem d (subst (λ b. scale 1000 modem ≤ℤ b) e hm),
  scale_le ap d (subst (λ b. scale 1000 ap ≤ℤ b) e ha),
  scale_le pa d (subst (λ b. scale 1000 pa ≤ℤ b) e hp),
)

-- The highest temperature is one of the three, in degrees too.
highest_degrees :
    (modem ap pa best : ℤ)
    → scale 1000 modem ≤ℤ best
    → scale 1000 ap ≤ℤ best
    → scale 1000 pa ≤ℤ best
    → (best ≡ scale 1000 modem) ⊎ (best ≡ scale 1000 ap) ⊎ (best ≡ scale 1000 pa)
    → (d : ℤ) × (best ≡ scale 1000 d)
      × ((modem ≤ℤ d) × (ap ≤ℤ d) × (pa ≤ℤ d))
      × ((d ≡ modem) ⊎ (d ≡ ap) ⊎ (d ≡ pa))
highest_degrees modem ap pa best hm ha hp among = elim among [
  | inl e ↦ (modem, e, below_best modem ap pa best modem hm ha hp e, inl refl)
  | inr (inl e) ↦ (ap, e, below_best modem ap pa best ap hm ha hp e, inr (inl refl))
  | inr (inr e) ↦ (pa, e, below_best modem ap pa best pa hm ha hp e, inr (inr refl))
]

module _ (long_max : ℕ) (wide : 2147483647 ≤ long_max) where
  atoi-print_int : (v : ℤ) → IsInt v → atoi long_max (print_int v []) ≡ v
  unfolding atoi
  atoi-print_int v int = rw (strtol-print_int long_max v [] (omega arith) tt) refl

  -- A printed number of whole degrees in millidegrees is converted to its degrees.
  convert-print_int :
      (f : Flags) (d : ℤ)
      → f.celsius_output ≡ true
      → IsInt (scale 1000 d)
      → IsInt d
      → convert long_max f cli_success (print_int (scale 1000 d) []) ≡ print_int d []
  unfolding convert
  convert-print_int f d celsius int int' =
      let text = print_int (scale 1000 d) [] in
      rw
        (
          celsius,
          unequal text not_available (printed_ne_na (scale 1000 d) int),
          atoi-print_int (scale 1000 d) int,
          whole_degrees-scale d,
        )
        (take-all 63 (print_int d []) (omega (arith, print_int_short d [] int')))

  printed :
      (f : Flags) (p : Pass) (g h : Globals) (d : ℤ)
      → f.celsius_output ≡ true
      → IsInt (scale 1000 d)
      → IsInt d
      → cli_mode long_max temp_str_size p.scene g ≡ read cli_success (print_int (scale 1000 d) []) h
      → read_once long_max f p g
        ≡ exited 0 (
            (if f.json_output
              then json_reading (print_int d []) true p.now
              else plain_reading (print_int d []))
            ∷ [])
  unfolding read_once on_single
  printed f p g h d celsius int int' e = rw (e, convert-print_int f d celsius int int') refl

  -- With `--celsius` and no daemon, a read prints the highest of the three temperatures that the
  -- modem gives, in degrees as the modem gives it, and ends with 0.
  pub read_once_degrees :
      (f : Flags) (p : Pass) (g : Globals) (code : ℕ) (codes : Bytes) (tty : Termios)
      {modem ap pa : ℤ}
      → f.celsius_output ≡ true
      → (check_daemon_running p.scene.scan_int p.scene.alive g.files).0 ≡ pos 0
      → let c = (reloaded long_max temp_str_size p.scene g).config in
        (init_serial_port (some c.serial_port) c.baud_rate p.scene.device 0).port ≡ some tty
        → send_at_command true (some at_command) true max_response p.scene.exchange
          ≡ answered (code ∷ codes)
        → extract_temp_values long_max (some (c_string (code ∷ codes))) all_wanted (prefixes c)
          ≡ (true, record { modem = some modem; ap = some ap; pa = some pa })
        → (d : ℤ) × ((modem ≤ℤ d) × (ap ≤ℤ d) × (pa ≤ℤ d))
          × ((d ≡ modem) ⊎ (d ≡ ap) ⊎ (d ≡ pa))
          × (read_once long_max f p g
              ≡ exited 0 (
                  (if f.json_output
                    then json_reading (print_int d []) true p.now
                    else plain_reading (print_int d []))
                  ∷ []))
  read_once_degrees f p g code codes tty {modem} {ap} {pa} celsius stopped opens answers extracts =
      let (best, selected, reads) =
        answer_read long_max temp_str_size p.scene g code codes tty (omega arith) stopped opens
          answers extracts in
      let (hm, ha, hp, is, range) = select_best_temperature_max modem ap pa selected in
      let (d, e, highest, among) = highest_degrees modem ap pa best hm ha hp is in
      let h : Globals = record (reloaded long_max temp_str_size p.scene g) {
        files = (check_daemon_running p.scene.scan_int p.scene.alive g.files).1;
      } in
      let scaled : InRange (scale 1000 d) = subst InRange e range in
      (
        d,
        highest,
        among,
        printed f p g h d celsius (omega arith) (degrees-IsInt d scaled)
            (reads ∙ cong (λ (v : ℤ). read cli_success (print_int v []) h) e),
      )

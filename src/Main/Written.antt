-- ===== src/Main/Written.antt =====
-- What a round of the daemon of src/daemon.c does to the module of src/kmod/main.c.
use quectel_rm520n_thermal.Base.{
  ℕ, ◌≡◌, refl, ◌∙◌, ap as cong, ℤ, true, Bool-cases, inl, inr, if◌then◌else◌, Option, some, List,
  [], ◌∷◌, ◌++◌, length, All, All-append, subst,
}
use quectel_rm520n_thermal.CString.{Bytes, strcmp_eq, print_int}
use quectel_rm520n_thermal.Kmod.Defs.{IsInt, Kernel, Stored}
use quectel_rm520n_thermal.Kmod.Printed.{ReadsPrinted, printed_nonempty}
use quectel_rm520n_thermal.Kmod.Sysfs
use quectel_rm520n_thermal.Kmod.Sysfs.Writes as SysfsWrites
use quectel_rm520n_thermal.Zone.{find_modem_thermal_zone}
use quectel_rm520n_thermal.Daemon.State.{State, Round, Action, writes, sleeps}
use quectel_rm520n_thermal.Daemon.Publish.{
  sysfs_path, platform_path, sensor_path, write_to, write_hwmon, write_zone, publish,
}
use quectel_rm520n_thermal.Daemon.Effects.{publish-All}
use quectel_rm520n_thermal.Daemon.Loop.{Turn, goes}

-- What a round has done.
abbrev pub actions_of : Turn → List Action
actions_of (goes t done) = done
actions_of (Turn.stops t done) = done
actions_of (Turn.blocked t done) = done

-- An action on the sysfs module: a write to its file of the temperature is one of its callback.
abbrev pub on_sysfs : Kernel → ℕ → Action → Sysfs.Thresholds → Sysfs.Thresholds
on_sysfs k jiffies (writes path v) m =
    let text = print_int v [] in
    if strcmp_eq path sysfs_path
    then (Sysfs.store k Sysfs.temp (some text) (length text) jiffies m).1
    else m
on_sysfs k jiffies _ m = m

-- The module behind a list of actions. The kernel's clock stands anywhere at each of them.
abbrev pub performed :
    Kernel → (List Action → ℕ) → List Action → Sysfs.Thresholds → Sysfs.Thresholds
performed k jiffies [] m = m
performed k jiffies (a ∷ rest) m = performed k jiffies rest (on_sysfs k (jiffies rest) a m)

-- No other temperature is written.
abbrev Only : ℤ → Action → Type 0
Only best (writes path v) = v ≡ best
Only best _ = Unit

module _ (k : Kernel) (reads : ReadsPrinted k) (jiffies : List Action → ℕ) (best : ℤ)
    (int : IsInt best) where
  stored :
      (j : ℕ) (m : Sysfs.Thresholds)
      → (Sysfs.store k Sysfs.temp
          (some (print_int best []))
          (length (print_int best []))
          j
          m).1.modem_temp
        ≡ best
  stored j m =
      cong (λ (x : Stored × Sysfs.Thresholds). x.1.modem_temp)
        (SysfsWrites.store_accepts k Sysfs.temp (print_int best []) (length (print_int best [])) j m
          (printed_nonempty best) (reads best int) tt)

  stepped :
      (j : ℕ) (a : Action) (m : Sysfs.Thresholds)
      → Only best a
      → m.modem_temp ≡ best
      → (on_sysfs k j a m).modem_temp ≡ best
  stepped j (writes path v) m e holds = elim (Bool-cases (strcmp_eq path sysfs_path)) [
    | inl same ↦ rw same (rw e (stored j m))
    | inr other ↦ rw other holds
  ]
  stepped j _ m only holds = holds

  kept :
      (done : List Action) (m : Sysfs.Thresholds)
      → All (Only best) done
      → m.modem_temp ≡ best
      → (performed k jiffies done m).modem_temp ≡ best
  kept [] m only holds = holds
  kept (a ∷ rest) m (one, only) holds = kept rest _ only (stepped (jiffies rest) a m one holds)

  first_written :
      (j : ℕ) (m : Sysfs.Thresholds) → (on_sysfs k j (writes sysfs_path best) m).modem_temp ≡ best
  unfolding strcmp_eq
  first_written j m = stored j m

  -- What the daemon writes behind the module's file.
  abbrev others : Round → Option Bytes → State → List Action
  others r hwmon s =
      write_hwmon r.opens_file hwmon best
      ++ (write_to r.opens_file platform_path best
          ++ (write_to r.opens_file sensor_path best
              ++ (write_zone r.opens_file (find_modem_thermal_zone r.accessible r.zones s.zone)
                  best).1))

  publish_first :
      (r : Round) (hwmon : Option Bytes) (s : State)
      → r.opens_file sysfs_path ≡ true
      → (publish r hwmon best s).1 ≡ writes sysfs_path best ∷ others r hwmon s
  unfolding publish write_to
  publish_first r hwmon s opens = rw opens refl

  others-Only :
      (r : Round) (hwmon : Option Bytes) (s : State)
      → r.opens_file sysfs_path ≡ true
      → All (Only best) (others r hwmon s)
  others-Only r hwmon s opens =
      (subst (All (Only best)) (publish_first r hwmon s opens)
        (publish-All (Only best) best (λ path. refl) r hwmon s)).1

  -- Behind a round that writes, the module holds the temperature.
  pub published :
      (r : Round) (hwmon : Option Bytes) (s : State) (m : Sysfs.Thresholds) (v : ℤ)
      → r.opens_file sysfs_path ≡ true
      → (performed k jiffies ((publish r hwmon best s).1 ++ sleeps v ∷ []) m).modem_temp ≡ best
  published r hwmon s m v opens =
      let more = others r hwmon s ++ sleeps v ∷ [] in
      cong (λ (done : List Action). (performed k jiffies (done ++ sleeps v ∷ []) m).modem_temp)
        (publish_first r hwmon s opens)
      ∙ kept more _ (All-append _ _ _ (others-Only r hwmon s opens) (tt, tt))
          (first_written (jiffies more) m)

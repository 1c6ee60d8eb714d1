-- ===== src/Daemon/Effects.antt =====
-- What the daemon of src/daemon.c does to the outside, whatever it meets.
use quectel_rm520n_thermal.Base.{
  ℕ, ◌≤◌, ◌≡◌, ℤ, pos, ◌≤ℤ◌, Bool, Bool-cases, inl, inr, true, false, Option, none, some, List, [],
  ◌∷◌, ◌++◌, arith, All, All-append,
}
use quectel_rm520n_thermal.CString.{Bytes}
use quectel_rm520n_thermal.Kmod.Defs.{InRange}
use quectel_rm520n_thermal.Config.{Config, Uci, config_read_uci, interval_min, interval_max}
use quectel_rm520n_thermal.Config.Validity.{config_read_uci-IsValid}
use quectel_rm520n_thermal.Zone.{ZoneCache, find_modem_thermal_zone}
use quectel_rm520n_thermal.Daemon.State.{State, Round, Action, sleeps, writes, releases_lock}
use quectel_rm520n_thermal.Daemon.Reload.{change_actions, reloaded, reload}
use quectel_rm520n_thermal.Daemon.Port.{
  Connected, connected, retries, exits, count_serial_error, open_failed, connect_from,
}
use quectel_rm520n_thermal.Daemon.Publish.{
  sysfs_path, platform_path, sensor_path, write_to, write_hwmon, write_zone, publish,
}

-- A temperature that is written is in the range of the hardware, and a sleep takes one second to an
-- hour.
abbrev pub IsHarmless : Action → Type 0
IsHarmless (sleeps v) = (pos 1 ≤ℤ v) × (v ≤ℤ pos 3600)
IsHarmless (writes path v) = InRange v
IsHarmless _ = Unit

abbrev pub Between : ℤ → Type 0
Between v = (interval_min ≤ℤ v) × (v ≤ℤ interval_max)

-- The intervals that the daemon sleeps.
abbrev pub IsFit : State → Type 0
IsFit s = Between s.config.interval × (1 ≤ s.reconnect_delay) × (s.reconnect_delay ≤ 60)

abbrev pub ConnectedIsFit : Connected → Type 0
ConnectedIsFit (connected t done) = IsFit t × All IsHarmless done
ConnectedIsFit (retries t done) = IsFit t × All IsHarmless done
ConnectedIsFit (exits t done) = All IsHarmless done

-- The settings are those of a successful or failed read.
abbrev ReadIsFit : Bool × Option Config → Type 0
ReadIsFit (ok, none) = Unit
ReadIsFit (ok, some c) = Between c.interval

pub IsHarmless-append :
    (done more : List Action)
    → All IsHarmless done
    → All IsHarmless more
    → All IsHarmless (done ++ more)
IsHarmless-append done more h k = All-append IsHarmless done more h k

change-IsHarmless :
    (previous config : Config) (is_open : Bool)
    → All IsHarmless (change_actions previous config is_open)
unfolding change_actions
change-IsHarmless previous config is_open = ground arith

reloaded-IsFit :
    (b : Bool × Option Config) (s : State)
    → ReadIsFit b
    → IsFit s
    → IsFit (reloaded b s).0 × All IsHarmless (reloaded b s).2
unfolding reloaded
reloaded-IsFit (ok, none) s r h = (h, tt)
reloaded-IsFit (false, some c) s r h = ((r, h.1, h.2), tt)
reloaded-IsFit (true, some c) s r h =
    let harmless = change-IsHarmless s.config c s.is_open in ground arith

fit_of : (b : Bool × Option Config) (c : Config) → b.1 ≡ some c → Between c.interval → ReadIsFit b
fit_of (ok, none) c e h = cc
fit_of (ok, some d) c e h = ground arith

module _ (long_max ulong_mod : ℕ) where
  read_fit : (uci : Uci) (c : Config) → ReadIsFit (config_read_uci long_max uci (some c))
  read_fit uci c =
      let (d, e, valid) = config_read_uci-IsValid long_max uci c in
      fit_of (config_read_uci long_max uci (some c)) d e (valid.interval_low, valid.interval_high)

  open_failed_fit :
      (s : State) (done : List Action)
      → IsFit s
      → All IsHarmless done
      → ConnectedIsFit (open_failed ulong_mod s done)
  unfolding open_failed count_serial_error
  open_failed_fit s done h k =
      let slept =
        IsHarmless-append done (sleeps (pos s.reconnect_delay) ∷ []) k (omega arith, tt) in
      let released = IsHarmless-append done (releases_lock ∷ []) k (tt, tt) in ground arith

  pub connect_fit :
      (is_open opens : Bool) (c : Config) (s : State) (done : List Action)
      → IsFit s
      → All IsHarmless done
      → ConnectedIsFit (connect_from ulong_mod is_open opens c s done)
  unfolding connect_from
  connect_fit true opens c s done h k = (h, k)
  connect_fit false true c s done h k =
      ((h.0, omega arith, omega arith), IsHarmless-append done _ k (tt, tt))
  connect_fit false false c s done h k = open_failed_fit s _ h (IsHarmless-append done _ k (tt, tt))

  pub reload-IsFit :
      (r : Round) (s : State)
      → IsFit s
      → IsFit (reload long_max r s).0 × All IsHarmless (reload long_max r s).2
  unfolding reload
  reload-IsFit r s h =
      let fit =
        reloaded-IsFit (config_read_uci long_max r.uci (some s.config)) s (read_fit r.uci s.config)
          h in
      ground arith

  pub rest_fit :
      (s : State) (done : List Action)
      → IsFit s
      → All IsHarmless done
      → All IsHarmless (done ++ sleeps s.config.interval ∷ [])
  rest_fit s done h k = IsHarmless-append done _ k (omega arith, tt)

-- What holds of the writes of a temperature holds of all that a publication does.
module _ (P : Action → Type 0) (v : ℤ) (of_write : (path : Bytes) → P (writes path v)) where
  write_to-All : (opens : Bytes → Bool) (path : Bytes) → All P (write_to opens path v)
  unfolding write_to
  write_to-All opens path = elim (Bool-cases (opens path)) [
    | inl e ↦ rw e (of_write path, tt)
    | inr e ↦ rw e tt
  ]

  write_hwmon-All :
      (opens : Bytes → Bool) (hwmon : Option Bytes) → All P (write_hwmon opens hwmon v)
  unfolding write_hwmon
  write_hwmon-All opens none = tt
  write_hwmon-All opens (some path) = write_to-All opens path

  write_zone-All : (opens : Bytes → Bool) (z : Bool × ZoneCache) → All P (write_zone opens z v).1
  unfolding write_zone
  write_zone-All opens (false, c) = tt
  write_zone-All opens (true, c) = write_to-All opens c.path

  pub publish-All : (r : Round) (hwmon : Option Bytes) (s : State) → All P (publish r hwmon v s).1
  unfolding publish
  publish-All r hwmon s = All-append P _ _ (write_to-All r.opens_file sysfs_path) (
      All-append P _ _ (write_hwmon-All r.opens_file hwmon) (
        All-append P _ _ (write_to-All r.opens_file platform_path) (
          All-append P _ _ (write_to-All r.opens_file sensor_path)
            (write_zone-All r.opens_file (find_modem_thermal_zone r.accessible r.zones s.zone)))))

-- ===== src/Kmod/Sensor/Laws.antt =====
-- What the thermal framework sees of src/kmod/sensor.c.
use quectel_rm520n_thermal.Base.{
  ℕ, ◌≤◌, ◌≢◌, ◌≡◌, ◌↔◌, refl, ℤ, true, Option, none, some, List, [], ◌∷◌, arith, All,
}
use quectel_rm520n_thermal.Kmod.Defs.{
  Bytes, default_temp_default, InRange, Errno, parsed, Kernel, consumed, rejected,
}
use quectel_rm520n_thermal.Kmod.Sensor.{
  TempData, quectel_temp_get_temp, cur_temp_store, run, Answers, bound, quectel_temp_probe,
}

-- The temperature, and every one that the framework was told of, is in the range of the hardware.
abbrev pub IsSound : TempData → Type 0
IsSound d = InRange d.cur_temp × All InRange d.zone_updates

-- A new sensor: the default temperature, and no update yet.
abbrev pub fresh : TempData
fresh = record { cur_temp = default_temp_default; zone_updates = [] }

pub probe_fresh : (a : Answers) (d : TempData) → quectel_temp_probe a ≡ bound d → d ≡ fresh
unfolding quectel_temp_probe
probe_fresh a d h = ground arith

-- The probe binds a new sensor exactly when there is memory and a node in the Device Tree, and both
-- registrations succeed.
pub quectel_temp_probe_binds_iff :
    (a : Answers)
    → (quectel_temp_probe a ≡ bound fresh) ↔ (
        (a.has_memory ≡ true) × (a.has_node ≡ true) × (a.zone_error ≡ none) × (a.file_error ≡ none))
unfolding quectel_temp_probe
quectel_temp_probe_binds_iff a = (λ h. ground arith, λ h. ground arith)

module _ (k : Kernel) where
  -- A write of a number, of at most a page, is consumed exactly when it is not empty and the number
  -- is in range; then the framework reads that number and is told of it, once.
  pub cur_temp_store_consumed_iff :
      (buf : Bytes) (count : ℕ) (d : TempData) {v : ℤ}
      → k.kstrtoint buf ≡ parsed v
      → (cur_temp_store k (some buf) count d
          ≡ (consumed count, record { cur_temp = v; zone_updates = v ∷ d.zone_updates }))
        ↔ ((count ≢ 0) × (count ≤ k.page_size) × InRange v)
  unfolding cur_temp_store
  cur_temp_store_consumed_iff buf count d e = (λ h. ground arith, λ h. ground arith)

  -- A write that fails changes nothing and tells the framework nothing.
  pub cur_temp_store_rejected :
      (buf : Option Bytes) (count : ℕ) (d : TempData) {e : Errno}
      → (cur_temp_store k buf count d).0 ≡ rejected e
      → (cur_temp_store k buf count d).1 ≡ d
  unfolding cur_temp_store
  cur_temp_store_rejected buf count d h = ground arith

  store-IsSound :
      (buf : Option Bytes) (count : ℕ) (d : TempData)
      → IsSound d
      → IsSound (cur_temp_store k buf count d).1
  unfolding cur_temp_store
  store-IsSound buf count d h = ground arith

  run-IsSound : (ws : List (Option Bytes × ℕ)) (d : TempData) → IsSound d → IsSound (run k ws d)
  unfolding run
  run-IsSound [] d h = h
  run-IsSound ((buf, count) ∷ ws) d h =
      run-IsSound ws (cur_temp_store k buf count d).1 (store-IsSound buf count d h)

  -- From a successful probe on, whatever is written, the thermal framework reads a temperature in
  -- the range of the hardware.
  pub get_temp_of_probe :
      (a : Answers) (ws : List (Option Bytes × ℕ)) (d : TempData)
      → quectel_temp_probe a ≡ bound d
      → (t : ℤ) × (quectel_temp_get_temp (some (run k ws d)) ≡ some t) × InRange t
  unfolding quectel_temp_get_temp
  get_temp_of_probe a ws d h =
      let e = probe_fresh a d h in
      ((run k ws d).cur_temp, refl, (run-IsSound ws d (rw e (omega arith))).0)

-- ===== src/Temperature/Bounds.antt =====
-- Which temperatures leave src/temperature.c.
use quectel_rm520n_thermal.Base.{
  ℕ, ◌≡◌, ◌↔◌, ◌⊎◌, inl, inr, ℤ, ◌≤ℤ◌, scale, Bool, true, false, Option, none, some, arith,
  Option-cases, ◌≢◌,
}
use quectel_rm520n_thermal.CString.{Bytes, codes, contains}
use quectel_rm520n_thermal.Kmod.Defs.{InRange}
use quectel_rm520n_thermal.Temperature.{
  temp_valid_min, temp_valid_max, Triple, extract_slots, extract_temp_values, well_formed,
  select_best_temperature,
}

-- The range in degrees.
abbrev pub Valid : ℤ → Type 0
Valid v = (temp_valid_min ≤ℤ v) × (v ≤ℤ temp_valid_max)

abbrev pub ValidSlot : Option ℤ → Type 0
ValidSlot none = Unit
ValidSlot (some v) = Valid v

abbrev pub all_wanted : Triple Bool
all_wanted = record { modem = true; ap = true; pa = true }

-- Extraction succeeds exactly for a response that is read at all and whose temperatures are all
-- valid, and then returns what stands in the three slots.
pub extract_temp_values_iff :
    (long_max : ℕ) (response : Bytes) (wanted : Triple Bool) (prefixes : Triple (Option Bytes))
    → let t = extract_slots long_max response wanted prefixes in
      (extract_temp_values long_max (some response) wanted prefixes ≡ (true, t))
      ↔ ((well_formed response ≡ true) × ValidSlot t.modem × ValidSlot t.ap × ValidSlot t.pa)
unfolding extract_temp_values
extract_temp_values_iff m response wanted prefixes =
    let t = extract_slots m response wanted prefixes in (λ h. ground arith, λ h. ground arith)

extracted-Valid :
    (long_max : ℕ) (response : Bytes) (prefixes : Triple (Option Bytes)) {modem ap pa : ℤ}
    → extract_temp_values long_max (some response) all_wanted prefixes
      ≡ (true, record { modem = some modem; ap = some ap; pa = some pa })
    → Valid modem × Valid ap × Valid pa
unfolding extract_temp_values
extracted-Valid m response prefixes h = ground arith

-- The best temperature is the highest of the three, in millidegrees.
pub select_best_temperature_max :
    (modem ap pa : ℤ) {best : ℤ}
    → select_best_temperature modem ap pa true ≡ some best
    → (scale 1000 modem ≤ℤ best)
      × (scale 1000 ap ≤ℤ best)
      × (scale 1000 pa ≤ℤ best)
      × ((best ≡ scale 1000 modem) ⊎ (best ≡ scale 1000 ap) ⊎ (best ≡ scale 1000 pa))
      × InRange best
unfolding select_best_temperature
select_best_temperature_max modem ap pa h = ground arith

selects :
    (modem ap pa : ℤ)
    → Valid modem
    → Valid ap
    → Valid pa
    → select_best_temperature modem ap pa true ≢ none
unfolding select_best_temperature
selects modem ap pa h k l e = ground arith

-- What a successful extraction returns always has a best temperature, one that the kernel modules
-- take: the daemon's and the tool's branches for a failed selection are never taken.
pub select_of_extract :
    (long_max : ℕ) (response : Bytes) (prefixes : Triple (Option Bytes)) {modem ap pa : ℤ}
    → extract_temp_values long_max (some response) all_wanted prefixes
      ≡ (true, record { modem = some modem; ap = some ap; pa = some pa })
    → (best : ℤ) × (select_best_temperature modem ap pa true ≡ some best) × InRange best
select_of_extract m response prefixes {modem} {ap} {pa} h =
    let (v, w, x) = extracted-Valid m response prefixes h in
    elim (Option-cases (select_best_temperature modem ap pa true)) [
      | inl e ↦ absurd (selects modem ap pa v w x e)
      | inr (best, e) ↦ (best, e, (select_best_temperature_max modem ap pa e).4)
    ]

refused :
    (long_max : ℕ) (response : Bytes) (wanted : Triple Bool) (prefixes : Triple (Option Bytes))
    → well_formed response ≡ false
    → (extract_temp_values long_max (some response) wanted prefixes).0 ≡ false
unfolding extract_temp_values
refused m response wanted prefixes h = ground arith

ill_formed :
    (response : Bytes)
    → contains (codes "OK") response ≡ true
    → contains (codes "modem") response ≡ false
    → well_formed response ≡ false
unfolding well_formed
ill_formed response ok no_modem = ground arith

-- A response with "OK" and without "modem" is refused, whatever the prefixes are that it is to be
-- searched for.
pub extract_needs_modem :
    (long_max : ℕ) (response : Bytes) (wanted : Triple Bool) (prefixes : Triple (Option Bytes))
    → contains (codes "OK") response ≡ true
    → contains (codes "modem") response ≡ false
    → (extract_temp_values long_max (some response) wanted prefixes).0 ≡ false
extract_needs_modem m response wanted prefixes ok no_modem =
    refused m response wanted prefixes (ill_formed response ok no_modem)

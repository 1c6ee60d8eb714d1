-- ===== src/Zone/Safety.antt =====
-- src/daemon.c: which thermal zone a search gives.
use quectel_rm520n_thermal.Base.{
  ◌≡◌, refl, Bool, true, false, Option, none, some, List, [], ◌∷◌, arith, ◌⊎◌, inl, inr, ◌∙◌, sym,
  ap, ◌≢◌, Option-cases, not, if◌then◌else◌,
}
use quectel_rm520n_thermal.CString.{Bytes, codes, starts_with}
use quectel_rm520n_thermal.System.{dev_name_of, fits, path_max_len}
use quectel_rm520n_thermal.Zone.{
  Zone, ZoneCache, in_zone, is_system_zone, is_modem_zone, typed, temp_file, or_next, scan_zones,
  scan_thermal, found_zone, find_modem_thermal_zone,
}

-- `path` is the temperature file of a thermal zone whose type is a modem's and not the system's.
abbrev pub IsModemFile : Zone → Bytes → Type 0
IsModemFile z path =
    (starts_with (codes "thermal_zone") z.d_name ≡ true)
    × (fits path_max_len (in_zone z.d_name (codes "/type")) ≡ true)
    × (fits path_max_len (in_zone z.d_name (codes "/temp")) ≡ true)
    × (path ≡ in_zone z.d_name (codes "/temp"))
    × (zone_type : Bytes) × (dev_name_of z.type_file ≡ some zone_type)
    × (is_modem_zone zone_type ≡ true)
    × (is_system_zone zone_type ≡ false)

-- It is that of one of the entries.
abbrev pub IsListed : List Zone → Bytes → Type 0
IsListed [] path = ⊥
IsListed (z ∷ zs) path = IsModemFile z path ⊎ IsListed zs path

typed-IsModemFile :
    (z : Zone) (t : Option Bytes) (path : Bytes)
    → starts_with (codes "thermal_zone") z.d_name ≡ true
    → fits path_max_len (in_zone z.d_name (codes "/type")) ≡ true
    → dev_name_of z.type_file ≡ t
    → typed z.d_name t ≡ some path
    → IsModemFile z path
unfolding typed
typed-IsModemFile z none path s f e h = cc
typed-IsModemFile z (some t) path s f e h =
    (s, f, ground arith, ground arith, t, e, ground arith, ground arith)

guards :
    (a b : Bool) (x : Option Bytes) (path : Bytes)
    → (if not a then none else if not b then none else x) ≡ some path
    → (a ≡ true) × (b ≡ true) × (x ≡ some path)
guards true true x path h = (refl, refl, h)
guards true false x path h = cc
guards false b x path h = cc

temp_file-IsModemFile : (z : Zone) (path : Bytes) → temp_file z ≡ some path → IsModemFile z path
unfolding temp_file
temp_file-IsModemFile z path h =
    let (s, f, e) = guards _ _ (typed z.d_name (dev_name_of z.type_file)) path h in
    typed-IsModemFile z (dev_name_of z.type_file) path s f refl e

IsListed-step :
    (z : Zone) (zs : List Zone) (x : Option Bytes) (path : Bytes)
    → temp_file z ≡ x
    → (scan_zones zs ≡ some path → IsListed zs path)
    → or_next x (scan_zones zs) ≡ some path
    → IsListed (z ∷ zs) path
IsListed-step z zs none path e ih h = inr (ih h)
IsListed-step z zs (some p) path e ih h = inl (temp_file-IsModemFile z path (e ∙ h))

scan_zones-IsListed : (zs : List Zone) (path : Bytes) → scan_zones zs ≡ some path → IsListed zs path
unfolding scan_zones
scan_zones-IsListed [] path h = cc
scan_zones-IsListed (z ∷ zs) path h =
    IsListed-step z zs (temp_file z) path refl (scan_zones-IsListed zs path) h

found-IsListed :
    (zs : List Zone) (x : Option Bytes) (c c' : ZoneCache)
    → scan_zones zs ≡ x
    → found_zone x c ≡ (true, c')
    → IsListed zs c'.path
found-IsListed zs none c c' e h = cc
found-IsListed zs (some path) c c' e h = scan_zones-IsListed zs c'.path (e ∙ cc)

-- The path that a search of the thermal zones gives is the one in the cache, which is writable, or
-- the temperature file of a zone that has one of the modem's types and none of the system's.
pub find_modem_thermal_zone-IsListed :
    (accessible : Bytes → Bool) (zones : List Zone) (c c' : ZoneCache)
    → find_modem_thermal_zone accessible (some zones) c ≡ (true, c')
    → ((c' ≡ c) × (accessible c'.path ≡ true)) ⊎ IsListed zones c'.path
unfolding find_modem_thermal_zone scan_thermal
find_modem_thermal_zone-IsListed accessible zones c c' h =
    let found = found-IsListed zones (scan_zones zones) c c' refl in
    let again =
      found-IsListed zones (scan_zones zones) (record { path = []; cached = false }) c' refl in
    ground arith

pub first_search-IsListed :
    (accessible : Bytes → Bool) (zones : List Zone) (c c' : ZoneCache)
    → c.cached ≡ false
    → find_modem_thermal_zone accessible (some zones) c ≡ (true, c')
    → IsListed zones c'.path
unfolding find_modem_thermal_zone scan_thermal
first_search-IsListed accessible zones c c' fresh h =
    let found = found-IsListed zones (scan_zones zones) c c' refl in ground arith

typed_found : (z : Zone) (path : Bytes) → IsModemFile z path → temp_file z ≡ some path
unfolding temp_file typed
typed_found z path (s, f, g, e, t, n, m, o) = rw (s, f, n, o, m, g) (ap some (sym e))

found_step :
    (x : Option Bytes) (zs : List Zone) (path : Bytes)
    → x ≡ some path
    → or_next x (scan_zones zs) ≢ none
found_step none zs path e h = cc
found_step (some p) zs path e h = cc

later_step :
    (x : Option Bytes) (zs : List Zone) → scan_zones zs ≢ none → or_next x (scan_zones zs) ≢ none
later_step none zs n h = n h
later_step (some p) zs n h = cc

listed_found : (zs : List Zone) (path : Bytes) → IsListed zs path → scan_zones zs ≢ none
unfolding scan_zones
listed_found [] path h = absurd h
listed_found (z ∷ zs) path (inl here) = found_step (temp_file z) zs path (typed_found z path here)
listed_found (z ∷ zs) path (inr later) = later_step (temp_file z) zs (listed_found zs path later)

-- Without a cached path, a search fails only where no thermal zone of a modem's type is listed.
pub find_modem_thermal_zone_complete :
    (accessible : Bytes → Bool) (zones : List Zone) (c : ZoneCache) (path : Bytes)
    → c.cached ≡ false
    → IsListed zones path
    → (find_modem_thermal_zone accessible (some zones) c).0 ≡ true
unfolding find_modem_thermal_zone scan_thermal
find_modem_thermal_zone_complete accessible zones c path e h =
    elim (Option-cases (scan_zones zones)) [
      | inl nothing ↦ absurd (listed_found zones path h nothing)
      | inr (p, found) ↦ rw (e, found) refl
    ]

-- ===== src/Daemon/Survey/Foretold.antt =====
-- src/daemon.c: the log at the start against the zone that the daemon writes to.
use mathlib.Core.List.{Mem, mem-cons_self, mem-append_right}
use quectel_rm520n_thermal.Base.{
  ◌≡◌, ◌≢◌, ◌⊎◌, inl, inr, refl, Bool, true, false, Option, some, List, [], ◌∷◌, ◌++◌, arith,
}
use quectel_rm520n_thermal.CString.{Bytes, codes, strcmp_eq, starts_with, strstr, contains}
use quectel_rm520n_thermal.CString.Search.{strcmp_eq_iff}
use quectel_rm520n_thermal.Zone.{Zone, ZoneCache, in_zone, is_modem_zone, find_modem_thermal_zone}
use quectel_rm520n_thermal.Zone.Safety.{IsModemFile, IsListed, first_search-IsListed}
use quectel_rm520n_thermal.Daemon.Survey.{
  Line, zone_found, Verdict, modem_zone, unknown_zone, verdict, zone_lines, thermal_lines, survey,
  survey_modules, survey_devices, survey_zones,
}

-- What the log may say of a zone that is written: that it is a modem's, or, of one type, that it is
-- unknown and will not be written.
abbrev pub MaySay : Bytes → Verdict → Type 0
MaySay zone_type v =
    ((v ≡ modem_zone) × (zone_type ≢ codes "rm520n-thermal"))
    ⊎ ((v ≡ unknown_zone) × (zone_type ≡ codes "rm520n-thermal"))

-- The path is the temperature file of a zone that the log has, with what it may say of it.
abbrev pub IsForetold : Bytes → List Line → Type 0
IsForetold path log =
    (d_name : Bytes) × (zone_type : Bytes) × (v : Verdict) × (path ≡ in_zone d_name (codes "/temp"))
    × Mem (zone_found d_name zone_type v) log
    × MaySay zone_type v

one_of_five :
    (t : Bytes)
    → is_modem_zone t ≡ true
    → (t ≡ codes "quectel_rm520n")
      ⊎ (t ≡ codes "modem_thermal")
      ⊎ (t ≡ codes "modem-thermal")
      ⊎ (t ≡ codes "quectel-thermal")
      ⊎ (t ≡ codes "rm520n-thermal")
unfolding is_modem_zone
one_of_five t h = ground (
  arith,
  strcmp_eq_iff t (codes "quectel_rm520n"),
  strcmp_eq_iff t (codes "modem_thermal"),
  strcmp_eq_iff t (codes "modem-thermal"),
  strcmp_eq_iff t (codes "quectel-thermal"),
  strcmp_eq_iff t (codes "rm520n-thermal"),
)

differs : (a b : Bytes) → strcmp_eq a b ≡ false → a ≢ b
differs a b h e = let same = (strcmp_eq_iff a b).1 e in ground arith

modem-MaySay : (t : Bytes) → is_modem_zone t ≡ true → MaySay t (verdict t)
unfolding verdict contains strstr starts_with strcmp_eq
modem-MaySay t h = elim (one_of_five t h) [
  | inl e ↦ rw e (inl (refl, differs _ _ refl))
  | inr (inl e) ↦ rw e (inl (refl, differs _ _ refl))
  | inr (inr (inl e)) ↦ rw e (inl (refl, differs _ _ refl))
  | inr (inr (inr (inl e))) ↦ rw e (inl (refl, differs _ _ refl))
  | inr (inr (inr (inr e))) ↦ rw e (inr (refl, refl))
]

zone_lines-IsForetold :
    (z : Zone) (path : Bytes) (rest : List Line)
    → IsModemFile z path
    → IsForetold path (zone_lines z ++ rest)
unfolding zone_lines
zone_lines-IsForetold z path rest (s, f, g, e, t, n, m, o) =
    (z.d_name, t, verdict t, e, rw (s, f, n) mem-cons_self, modem-MaySay t m)

IsForetold-behind :
    (path : Bytes) (before log : List Line) → IsForetold path log → IsForetold path (before ++ log)
IsForetold-behind path before log (d, t, v, e, m, says) =
    (d, t, v, e, mem-append_right before m, says)

thermal_lines-IsForetold :
    (zs : List Zone) (path : Bytes) → IsListed zs path → IsForetold path (thermal_lines zs)
unfolding thermal_lines
thermal_lines-IsForetold [] path h = absurd h
thermal_lines-IsForetold (z ∷ zs) path (inl here) = zone_lines-IsForetold z path _ here
thermal_lines-IsForetold (z ∷ zs) path (inr later) =
    IsForetold-behind path (zone_lines z) _ (thermal_lines-IsForetold zs path later)

-- The thermal zone that a first search finds, while the directory stays as it is, is in the log of
-- the start as one that is safe to write; but one of the type "rm520n-thermal" is there as one that
-- will not be written.
pub survey-IsForetold :
    (accessible : Bytes → Bool) (zones : List Zone) (c c' : ZoneCache) (modules : Option Bytes)
    (names : Option (List Bytes))
    → c.cached ≡ false
    → find_modem_thermal_zone accessible (some zones) c ≡ (true, c')
    → IsForetold c'.path (survey modules names (some zones))
unfolding survey survey_zones
survey-IsForetold accessible zones c c' modules names fresh found =
    IsForetold-behind _ (survey_modules modules) _ (
      IsForetold-behind _ (survey_devices names) _ (
        thermal_lines-IsForetold zones c'.path
          (first_search-IsListed accessible zones c c' fresh found)))

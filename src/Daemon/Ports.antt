-- ===== src/Daemon/Ports.antt =====
-- What the daemon of src/daemon.c has open, and what it gives back when it exits.
use quectel_rm520n_thermal.Base.{
  ℕ, ◌+◌, ◌≡◌, refl, ℤ, Bool, true, false, Option, none, some, List, [], ◌∷◌, ◌++◌, All, total,
  total-append, if◌then◌else◌, arith, Bool-cases, inl, inr,
}
use quectel_rm520n_thermal.CString.{Bytes}
use quectel_rm520n_thermal.Config.{Speed, Config}
use quectel_rm520n_thermal.Daemon.State.{State, Action, opens_port, closes, releases_lock, sleeps}
use quectel_rm520n_thermal.Daemon.Reload.{change_actions, config_changed, port_changed, reloaded}

abbrev pub one_if_opened : Action → ℕ
one_if_opened (opens_port path speed true) = 1
one_if_opened _ = 0

abbrev pub one_if_closed : Action → ℕ
one_if_closed closes = 1
one_if_closed _ = 0

-- How often the port was opened, and how often it was closed.
abbrev pub opened : List Action → ℕ
opened = total one_if_opened

abbrev pub closed : List Action → ℕ
closed = total one_if_closed

-- The actions end with the release of the lock.
abbrev pub Released : List Action → Type 0
Released done = (before : List Action) × (done ≡ before ++ releases_lock ∷ [])

abbrev pub one_if : Bool → ℕ
one_if true = 1
one_if false = 0

-- The descriptor is what was opened and not closed, from one that was there.
abbrev pub Balanced : Bool → List Action → Bool → Type 0
Balanced before done after = one_if before + opened done ≡ closed done + one_if after

pub Balanced-append :
    (a b c : Bool) (xs ys : List Action)
    → Balanced a xs b
    → Balanced b ys c
    → Balanced a (xs ++ ys) c
Balanced-append a b c xs ys h k =
    omega (arith, total-append one_if_opened xs ys, total-append one_if_closed xs ys)

-- Neither an opening nor a closing.
abbrev pub IsQuiet : Action → Type 0
IsQuiet a = (one_if_opened a ≡ 0) × (one_if_closed a ≡ 0)

pub quiet-Balanced : (b : Bool) (done : List Action) → All IsQuiet done → Balanced b done b
quiet-Balanced b [] h = omega arith
quiet-Balanced b (a ∷ rest) ((e, e'), hs) = omega (arith, quiet-Balanced b rest hs)

change-Balanced :
    (previous config : Config) (is_open changed : Bool)
    → port_changed previous config ≡ changed
    → Balanced is_open (change_actions previous config is_open) (if changed then false else is_open)
unfolding change_actions
change-Balanced previous config true true e = ground arith
change-Balanced previous config true false e = ground arith
change-Balanced previous config false true e = ground arith
change-Balanced previous config false false e = ground arith

pub reloaded-Balanced :
    (x : Bool × Option Config) (s : State)
    → Balanced s.is_open (reloaded x s).2 (reloaded x s).0.is_open
unfolding reloaded
reloaded-Balanced (ok, none) s = omega arith
reloaded-Balanced (false, some c) s = omega arith
reloaded-Balanced (true, some c) s = elim (Bool-cases (config_changed s.config c)) [
  | inl e ↦ rw e (change-Balanced s.config c s.is_open (port_changed s.config c) refl)
  | inr e ↦ rw e (omega arith)
]

-- Without the descriptor the actions of the opening are none of its closing.
pub tried-Balanced :
    (b : Bool) (done : List Action) (path : Bytes) (speed : Speed) (ok : Bool)
    → Balanced b done false
    → Balanced b (done ++ opens_port path speed ok ∷ []) ok
tried-Balanced b done path speed true h = Balanced-append b false true done _ h (omega arith)
tried-Balanced b done path speed false h = Balanced-append b false false done _ h (omega arith)

pub pause-Balanced :
    (b c : Bool) (done : List Action) (v : ℤ)
    → Balanced b done c
    → Balanced b (done ++ sleeps v ∷ []) c
pause-Balanced b c done v h = Balanced-append b c c done _ h (omega arith)

pub release-Balanced :
    (b c : Bool) (done : List Action)
    → Balanced b done c
    → Balanced b (done ++ releases_lock ∷ []) c
release-Balanced b c done h = Balanced-append b c c done _ h (omega arith)

pub close-Balanced :
    (b : Bool) (done : List Action) → Balanced b done true → Balanced b (done ++ closes ∷ []) false
close-Balanced b done h = Balanced-append b true false done _ h (omega arith)

-- ===== src/Lock/Overlap.antt =====
-- The lock of src/system.c between processes that overlap: each call of the system is a step, and
-- the processes take them in any order.
use quectel_rm520n_thermal.Base.{
  ℕ, ◌≡◌, refl, ◌==◌, if◌then◌else◌, Bool, true, false, Option, none, some, [], arith, ap, subst,
}
use mathlib.Core.Path.{fun_ext}
use quectel_rm520n_thermal.Lock.{
  update, Files, unlink_pid, unlink_lock, open_named, write_pid, unlock,
}

-- Where a process stands, with the file of its `daemon_lock_fd`. The flag is set in the release of
-- `daemon_mode`, which the one of `daemon_cleanup` follows at exit.
pub data Pc : Type 0 where
  outside : Pc
  opened : ℕ → Pc  -- before the `flock`
  locked : ℕ → Pc  -- before the `fopen` of the PID file
  emptied : ℕ → Pc  -- the PID file is empty
  running : ℕ → Pc
  unlocked : Bool → Pc  -- before `unlink(PID_FILE)`
  unlinked : Bool → Pc  -- before `unlink(LOCK_FILE)`
  exiting : Pc

-- The file whose lock a process has.
abbrev pub lock_of : Pc → Option ℕ
lock_of (locked i) = some i
lock_of (emptied i) = some i
lock_of (running i) = some i
lock_of _ = none

pub data Move (me : ℕ) (s : Files) : Pc → Files → Pc → Type 0 where
  opens : Move me s outside (open_named s.lock_file s).1 (opened (open_named s.lock_file s).0)
  locks :
      {i : ℕ}
      → s.owner i ≡ none
      → Move me s (opened i) (record s { owner = update s.owner i (some me) }) (locked i)
  fails : {i : ℕ} → Move me s (opened i) s outside
  no_pid_file : {i : ℕ} → Move me s (locked i) s (running i)
  empties : {i : ℕ} → Move me s (locked i) (record s { pid_file = some [] }) (emptied i)
  writes : {i : ℕ} → Move me s (emptied i) (write_pid true me s) (running i)
  unlocks : {i : ℕ} → Move me s (running i) (unlock (some i) s) (unlocked true)
  unlinks_pid : {again : Bool} → Move me s (unlocked again) (unlink_pid s) (unlinked again)
  unlinks_lock : Move me s (unlinked true) (unlink_lock s) exiting
  cleans_up : Move me s exiting s (unlocked false)
  exits : Move me s (unlinked false) (unlink_lock s) outside
  -- `check_daemon_running`, for a PID file that it has read at any time before.
  finds_stale : Move me s outside (unlink_pid s) outside
  dies : {pc : Pc} → Move me s pc (unlock (lock_of pc) s) outside

pub record System : Type 0 where
  pub files : Files
  pub pcs : ℕ → Pc

pub data Step (x : System) : System → Type 0 where
  pick :
      (p : ℕ) {pc pc' : Pc} {t : Files}
      → x.pcs p ≡ pc
      → Move p x.files pc t pc'
      → Step x (record { files = t; pcs = update x.pcs p pc' })

pub data Reach (x : System) : System → Type 0 where
  here : Reach x x
  next : {y z : System} → Reach x y → Step y z → Reach x z

abbrev pub init : System
init = record {
  files = record { pid_file = none; lock_file = none; fresh = 0; owner = λ _. none };
  pcs = λ _. outside;
}

-- What a move does to the locks, by what its process has before and behind it.
data Effect (me : ℕ) (s t : Files) : Option ℕ → Option ℕ → Type 0 where
  kept : {a : Option ℕ} → ((j : ℕ) → t.owner j ≡ s.owner j) → Effect me s t a a
  taken :
      (i : ℕ)
      → s.owner i ≡ none
      → ((j : ℕ) → t.owner j ≡ (if j == i then some me else s.owner j))
      → Effect me s t none (some i)
  dropped :
      (i : ℕ)
      → ((j : ℕ) → t.owner j ≡ (if j == i then none else s.owner j))
      → Effect me s t (some i) none

opened-owner : (o : Option ℕ) (s : Files) (j : ℕ) → (open_named o s).1.owner j ≡ s.owner j
unfolding open_named
opened-owner none s j = refl
opened-owner (some i) s j = refl

death-Effect : (me : ℕ) (s : Files) (o : Option ℕ) → Effect me s (unlock o s) o none
unfolding unlock
death-Effect me s none = kept (λ j. refl)
death-Effect me s (some i) = dropped i (λ j. refl)

Move-Effect :
    {me : ℕ} {s t : Files} {pc pc' : Pc}
    → Move me s pc t pc'
    → Effect me s t (lock_of pc) (lock_of pc')
unfolding write_pid unlock
Move-Effect {s} opens = kept (opened-owner s.lock_file s)
Move-Effect (locks {i} e) = taken i e (λ j. refl)
Move-Effect fails = kept (λ j. refl)
Move-Effect no_pid_file = kept (λ j. refl)
Move-Effect empties = kept (λ j. refl)
Move-Effect writes = kept (λ j. refl)
Move-Effect (unlocks {i}) = dropped i (λ j. refl)
Move-Effect unlinks_pid = kept (λ j. refl)
Move-Effect unlinks_lock = kept (λ j. refl)
Move-Effect cleans_up = kept (λ j. refl)
Move-Effect exits = kept (λ j. refl)
Move-Effect finds_stale = kept (λ j. refl)
Move-Effect {me} {s} (dies {pc}) = death-Effect me s (lock_of pc)

-- The owner of a lock is the process that stands where it has it.
record IsOwned (s : Files) (has : ℕ → Option ℕ) : Type 0 where
  owned : (p i : ℕ) → has p ≡ some i → s.owner i ≡ some p
  held : (i p : ℕ) → s.owner i ≡ some p → has p ≡ some i

Effect-IsOwned :
    {me : ℕ} {s t : Files} {a b : Option ℕ} (has : ℕ → Option ℕ)
    → Effect me s t a b
    → has me ≡ a
    → IsOwned s has
    → IsOwned t (update has me b)
Effect-IsOwned {me} has (kept same) e v = record {
  owned = λ p i h. ground (arith, v.owned p i, same i);
  held = λ i p h. ground (arith, v.held i p, same i);
}
Effect-IsOwned {me} has (taken k free new) e v = record {
  owned = λ p i h. ground (arith, v.owned p i, new i);
  held = λ i p h. ground (arith, v.held i p, new i);
}
Effect-IsOwned {me} has (dropped k new) e v = record {
  owned = λ p i h. ground (arith, v.owned p i, v.owned me k, new i);
  held = λ i p h. ground (arith, v.held i p, new i);
}

lock_of-update :
    (pcs : ℕ → Pc) (p : ℕ) (pc : Pc)
    → update (λ q. lock_of (pcs q)) p (lock_of pc) ≡ (λ q. lock_of (update pcs p pc q))
lock_of-update pcs p pc = fun_ext (λ q. ground arith)

Reach-IsOwned : {x : System} → Reach init x → IsOwned x.files (λ p. lock_of (x.pcs p))
Reach-IsOwned here = record { owned = λ p i h. cc; held = λ i p h. cc }
Reach-IsOwned (next {y} r (pick p {pc} {pc'} {t} at move)) =
    subst (IsOwned t) (lock_of-update y.pcs p pc')
      (Effect-IsOwned (λ q. lock_of (y.pcs q)) (Move-Effect move) (ap lock_of at) (Reach-IsOwned r))

-- However the calls of the processes overlap, and whichever are killed, no two have the lock of
-- one file.
pub one_owner :
    {x : System} (p q i : ℕ)
    → Reach init x
    → lock_of (x.pcs p) ≡ some i
    → lock_of (x.pcs q) ≡ some i
    → p ≡ q
one_owner p q i r hp hq = let v = Reach-IsOwned r in ground (arith, v.owned p i hp, v.owned q i hq)

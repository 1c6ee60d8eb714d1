-- ===== src/Lock/Mutex.antt =====
-- The lock of src/system.c between daemons that start and end one at a time. A daemon ends by its
-- first `release_daemon_lock`, or is killed.
use quectel_rm520n_thermal.Base.{
  ℕ, ◌<◌, ◌≡◌, ◌↔◌, inl, inr, refl, ◌==◌, if◌then◌else◌, Bool, true, Option, none, some, arith,
  Option-cases,
}
use quectel_rm520n_thermal.Lock.{
  update, Files, Calls, open_named, flock, write_pid, on_flock, on_open, acquire_daemon_lock,
  unlock, release_daemon_lock,
}

-- The files, and the `daemon_lock_fd` of each process.
pub record World : Type 0 where
  pub files : Files
  pub fds : ℕ → Option ℕ

-- Any files that are there at first have no lock.
abbrev pub IsFirst : World → Type 0
IsFirst w =
    ((p : ℕ) → w.fds p ≡ none)
    × ((i : ℕ) → w.files.owner i ≡ none)
    × ((i : ℕ) → w.files.lock_file ≡ some i → i < w.files.fresh)

abbrev pub started : Calls → ℕ → World → World
started c p w =
    let (fd, files) = acquire_daemon_lock c p w.files in
    record { files = files; fds = update w.fds p fd }

abbrev pub left : ℕ → World → World
left p w = record { files = release_daemon_lock (w.fds p) w.files; fds = update w.fds p none }

abbrev pub killed : ℕ → World → World
killed p w = record { files = unlock (w.fds p) w.files; fds = update w.fds p none }

pub data Step (w : World) : World → Type 0 where
  starts : (c : Calls) (p : ℕ) → w.fds p ≡ none → Step w (started c p w)
  leaves : (p i : ℕ) → w.fds p ≡ some i → Step w (left p w)
  dies : (p : ℕ) → Step w (killed p w)

pub data Reach (w : World) : World → Type 0 where
  here : Reach w w
  next : {u v : World} → Reach w u → Step u v → Reach w v

-- A lock is that of the file which the name stands for, and of the process that has its descriptor.
pub record Inv (w : World) : Type 0 where
  pub owned : (p i : ℕ) → w.fds p ≡ some i → w.files.owner i ≡ some p
  pub named : (p i : ℕ) → w.fds p ≡ some i → w.files.lock_file ≡ some i
  pub held : (i p : ℕ) → w.files.owner i ≡ some p → w.fds p ≡ some i
  pub old : (i : ℕ) → w.files.lock_file ≡ some i → i < w.files.fresh

first-Inv : {w : World} → IsFirst w → Inv w
first-Inv (none_held, unlocked, numbered) = record {
  owned = λ p i h. ground (arith, none_held p);
  named = λ p i h. ground (arith, none_held p);
  held = λ i p h. ground (arith, unlocked i);
  old = numbered;
}

-- What an attempt to get the lock of the files `s` leaves, by its descriptor.
pub record Attempt (p : ℕ) (s : Files) (fd : Option ℕ) (t : Files) : Type 0 where
  kept : (i : ℕ) → s.lock_file ≡ some i → t.lock_file ≡ some i
  grown : (i : ℕ) → t.lock_file ≡ some i → (s.lock_file ≡ some i → i < s.fresh) → i < t.fresh
  free : (i : ℕ) → fd ≡ some i → s.owner i ≡ none
  named : (i : ℕ) → fd ≡ some i → t.lock_file ≡ some i
  pub taken : (i j : ℕ) → fd ≡ some i → t.owner j ≡ (if j == i then some p else s.owner j)
  idle : (j : ℕ) → fd ≡ none → t.owner j ≡ s.owner j

pub acquire-Attempt :
    (c : Calls) (p : ℕ) (s : Files)
    → Attempt p s (acquire_daemon_lock c p s).0 (acquire_daemon_lock c p s).1
unfolding acquire_daemon_lock on_open open_named on_flock flock write_pid
acquire-Attempt c p s = record {
  kept = λ i h. ground arith;
  grown = λ i h k. ground arith;
  free = λ i h. ground arith;
  named = λ i h. ground arith;
  taken = λ i j h. ground arith;
  idle = λ j h. ground arith;
}

Attempt-Inv :
    (p : ℕ) (w : World) (fd : Option ℕ) (t : Files)
    → w.fds p ≡ none
    → Inv w
    → Attempt p w.files fd t
    → Inv (record { files = t; fds = update w.fds p fd })
Attempt-Inv p w none t out v a = record {
  owned = λ q i h. ground (arith, v.owned q i, a.idle i);
  named = λ q i h. ground (arith, v.named q i, a.kept i);
  held = λ i q h. ground (arith, v.held i q, a.idle i);
  old = λ i h. a.grown i h (v.old i);
}
Attempt-Inv p w (some j) t out v a = record {
  owned =
      λ q i h. ground (arith, v.owned q i, v.named q i, a.taken j i, a.kept i, a.free j, a.named j);
  named = λ q i h. ground (arith, v.named q i, a.kept i, a.named j);
  held = λ i q h. ground (arith, v.held i q, a.taken j i);
  old = λ i h. a.grown i h (v.old i);
}

left-Inv : (p i : ℕ) (w : World) → w.fds p ≡ some i → Inv w → Inv (left p w)
unfolding release_daemon_lock unlock
left-Inv p i w h v = record {
  owned = λ q j k. ground (arith, v.owned p i, v.owned q j, v.named p i, v.named q j, v.held i p);
  named = λ q j k. ground (arith, v.owned p i, v.owned q j, v.named p i, v.named q j);
  held = λ j q k. ground (arith, v.held j q, v.held i q, v.named q j, v.named p i, h);
  old = λ j k. ground arith;
}

unlocked-Inv :
    (p : ℕ) (w : World) (fd : Option ℕ)
    → w.fds p ≡ fd
    → Inv w
    → Inv (record { files = unlock fd w.files; fds = update w.fds p none })
unfolding unlock
unlocked-Inv p w none e v = record {
  owned = λ q i h. ground (arith, v.owned q i);
  named = λ q i h. ground (arith, v.named q i);
  held = λ i q h. ground (arith, v.held i q);
  old = v.old;
}
unlocked-Inv p w (some j) e v = record {
  owned = λ q i h. ground (arith, v.owned q i, v.owned p j);
  named = λ q i h. ground (arith, v.named q i);
  held = λ i q h. ground (arith, v.held i q);
  old = v.old;
}

Step-Inv : {w u : World} → Step w u → Inv w → Inv u
Step-Inv {w} (starts c p out) v =
    Attempt-Inv p w (acquire_daemon_lock c p w.files).0 (acquire_daemon_lock c p w.files).1 out v
      (acquire-Attempt c p w.files)
Step-Inv {w} (leaves p i h) v = left-Inv p i w h v
Step-Inv {w} (dies p) v = unlocked-Inv p w (w.fds p) refl v

pub Reach-Inv : {w u : World} → IsFirst w → Reach w u → Inv u
Reach-Inv first here = first-Inv first
Reach-Inv first (next r st) = Step-Inv st (Reach-Inv first r)

-- Daemons that start, end and are killed one at a time never have the lock two at once.
pub mutual_exclusion :
    {w u : World} (p q i j : ℕ)
    → IsFirst w
    → Reach w u
    → u.fds p ≡ some i
    → u.fds q ≡ some j
    → p ≡ q
mutual_exclusion p q i j first r hp hq =
    let v = Reach-Inv first r in ground (arith, v.owned p i, v.owned q j, v.named p i, v.named q j)

-- Who is to get the lock of the files, if its calls succeed.
abbrev pub calls : Bool → Calls
calls opens_pid = record { opens_lock = true; flocks = true; opens_pid = opens_pid }

abbrev pub Gets : Bool → ℕ → Files → Type 0
Gets opens_pid p s = (i : ℕ) × ((acquire_daemon_lock (calls opens_pid) p s).0 ≡ some i)

pub acquire_free :
    (o : Bool) (p : ℕ) (s : Files)
    → ((i : ℕ) → s.lock_file ≡ some i → s.owner i ≡ none)
    → s.owner s.fresh ≡ none
    → Gets o p s
unfolding acquire_daemon_lock on_open open_named on_flock flock write_pid
acquire_free o p s unlocked unused = elim (Option-cases s.lock_file) [
  | inl e ↦ (s.fresh, ground arith)
  | inr (i, e) ↦ (i, ground (arith, unlocked i))
]

no_owner : {w : World} → Inv w → ((q : ℕ) → w.fds q ≡ none) → (i : ℕ) → w.files.owner i ≡ none
no_owner {w} v free i = elim (Option-cases (w.files.owner i)) [
  | inl e ↦ e
  | inr (q, e) ↦ ground (arith, v.held i q, free q)
]

-- A daemon that starts, and whose calls succeed, gets the lock exactly if no process has it:
-- neither a daemon that has ended, nor one that was killed, keeps the next from it.
pub acquire_iff_free :
    {w u : World} (opens_pid : Bool) (p : ℕ)
    → IsFirst w
    → Reach w u
    → Gets opens_pid p u.files ↔ ((q : ℕ) → u.fds q ≡ none)
acquire_iff_free {w} {u} o p first r =
    let v = Reach-Inv first r in
    (
      λ (i, got) q. elim (Option-cases (u.fds q)) [
        | inl e ↦ e
        | inr (j, e) ↦
            let a = acquire-Attempt (calls o) p u.files in
            ground (arith, v.owned q j, v.named q j, a.kept j, a.named i, a.free i)
      ],
      λ free. acquire_free o p u.files (λ i e. no_owner v free i) (no_owner v free u.files.fresh),
    )

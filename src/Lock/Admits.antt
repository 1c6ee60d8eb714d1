-- ===== src/Lock/Admits.antt =====
-- The lock of src/system.c when its file is removed while a process has it, or is about to get it.
use quectel_rm520n_thermal.Base.{
  ℕ, ◌≡◌, ◌≢◌, refl, inl, inr, Bool, true, false, none, some, arith, Option-cases,
}
use quectel_rm520n_thermal.Lock.{
  open_named, flock, write_pid, on_flock, on_open, acquire_daemon_lock, unlock, release_daemon_lock,
}
use quectel_rm520n_thermal.Lock.Mutex as Mutex
use quectel_rm520n_thermal.Lock.Mutex.{World, IsFirst, Inv, Reach-Inv, calls}
use quectel_rm520n_thermal.Lock.Overlap.{
  running, System, Reach, here, next, pick, opens, locks, no_pid_file, unlocks, unlinks_pid,
  unlinks_lock, init,
}

fresh_unowned : {w : World} → Inv w → w.files.owner w.files.fresh ≡ none
fresh_unowned {w} v = elim (Option-cases (w.files.owner w.files.fresh)) [
  | inl e ↦ e
  | inr (q, e) ↦
      ground (arith, v.held w.files.fresh q, v.named q w.files.fresh, v.old w.files.fresh)
]

-- The second release of a daemon that has ended takes the file away from a daemon that has got the
-- lock in between: the next one that starts gets a lock too.
pub second_release_admits :
    {w u : World} (opens_pid : Bool) (q r i : ℕ)
    → IsFirst w
    → Mutex.Reach w u
    → u.fds q ≡ some i
    → let (fd, files) =
        acquire_daemon_lock (calls opens_pid) r (release_daemon_lock none u.files) in
      (fd ≡ some u.files.fresh) × (files.owner u.files.fresh ≡ some r) × (files.owner i ≡ some q)
unfolding acquire_daemon_lock on_open open_named on_flock flock write_pid release_daemon_lock unlock
second_release_admits {w} {u} true q r i first reach h =
    let v = Reach-Inv first reach in
    let free = fresh_unowned v in
    let has = v.owned q i h in (ground arith, ground arith, ground arith)
second_release_admits {w} {u} false q r i first reach h =
    let v = Reach-Inv first reach in
    let free = fresh_unowned v in
    let has = v.owned q i h in (ground arith, ground arith, ground arith)

-- A process that opens the file before its owner removes it, and one that comes later, both get a lock
-- and run.
pub overlap_admits :
    (p q r : ℕ)
    → p ≢ q
    → p ≢ r
    → q ≢ r
    → (x : System) × Reach init x × (x.pcs q ≡ running 0) × (x.pcs r ≡ running 1)
unfolding open_named unlock
overlap_admits p q r pq pr qr = (
  _,
  next
      (next
        (next
          (next
            (next
              (next
                (next
                  (next
                    (next
                      (next
                        (next (next here (pick p refl opens))
                          (pick p (ground arith) (locks {i = 0} refl)))
                        (pick p (ground arith) (no_pid_file {i = 0})))
                      (pick q (ground arith) opens))
                    (pick p (ground arith) (unlocks {i = 0})))
                  (pick p (ground arith) (unlinks_pid {again = true})))
                (pick p (ground arith) unlinks_lock))
              (pick q (ground arith) (locks {i = 0} (ground arith))))
            (pick q (ground arith) (no_pid_file {i = 0})))
          (pick r (ground arith) opens))
        (pick r (ground arith) (locks {i = 1} (ground arith))))
      (pick r (ground arith) (no_pid_file {i = 1})),
  ground arith,
  ground arith,
)

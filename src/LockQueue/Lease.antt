-- ===== src/LockQueue/Lease.antt =====
-- Who has a lock of src/socket/lock-queue.service.ts between its grant and its deadline.
use starsyncbackend.Prelude.{
  ℕ, String, ◌≡◌, ◌≢◌, refl, List, [], ◌∷◌, none, some, arith, ◌≤◌, ◌+◌, eq_iff, eq_refl, inl, inr,
  All, or_else,
}
use starsyncbackend.JsMap
use starsyncbackend.JsMap.{get-set, get-delete}
use starsyncbackend.LockQueue.{
  LockQueue, ItemLock, Request, lock_key, request_key, acquire_lock, acquire_install, renew,
  new_lock, is_locked, process_queued, queue_edit, granted, denied, lock_expiration_ms,
  release_lock,
}
use starsyncbackend.LockQueue.Release.{is_locked_lem}
use starsyncbackend.LockQueue.Acquire.{
  Outcome, fresh, taken_over, refused, renewed, acquire_lock_lem,
}
use starsyncbackend.LockQueue.Invariant.{IsConsistent, acquire_lock-IsConsistent}
use starsyncbackend.LockQueue.Sweep.{
  get-release_lock, get-release_all_user_locks, get-cleanup_expired_locks,
}
use starsyncbackend.LockQueue.History.{
  Call, acquire, release, release_all, query, process, enqueue, cleanup, step, run,
  step-IsConsistent,
}

-- The user has the lock under this key, until the deadline at least.
pub record Held (user key : String) (deadline : ℕ) (s : LockQueue) : Type 0 where
  pub lock : ItemLock
  pub there : JsMap.get key s.locks ≡ some lock
  pub owner : lock.user_id ≡ user
  pub lasts : deadline ≤ lock.expires_at

-- A call by somebody else, up to the deadline: requests of other users, releases named for other
-- users, and the calls that look for expired locks.
abbrev pub Foreign : String → ℕ → Call → Type 0
Foreign user deadline (acquire now later r) = (now ≤ deadline) × (r.user_id ≢ user)
Foreign user deadline (release now item project none) = ⊥
Foreign user deadline (release now item project (some v)) = (v ≢ user) × (v ≢ "")
Foreign user deadline (release_all now v) = v ≢ user
Foreign user deadline (query now item project) = now ≤ deadline
Foreign user deadline (process now item project) = now ≤ deadline
Foreign user deadline (enqueue now r edit_data priority) = Unit
Foreign user deadline (cleanup now) = now ≤ deadline

module _ (user key : String) (deadline : ℕ) {s : LockQueue} (h : Held user key deadline s) where
  -- The same lock, found in another state.
  pub still :
      (t : LockQueue) → JsMap.get key t.locks ≡ JsMap.get key s.locks → Held user key deadline t
  still t e = record { lock = h.lock; there = rw e h.there; owner = h.owner; lasts = h.lasts }

  acquire-Held :
      (now later : ℕ) (r : Request)
      → now ≤ deadline
      → r.user_id ≢ user
      → Outcome now later r s
      → Held user key deadline (acquire_lock now later r s).0
  unfolding acquire_install renew
  acquire-Held now later r early other (fresh e p) = rw p (
      still _ (
        ground (
          arith,
          h.there,
          get-set (request_key r) key (new_lock now r) s.locks,
          eq_iff (request_key r) key,
        )))
  acquire-Held now later r early other (taken_over lock e late p) =
      let s' = (release_lock later r.item_id r.project_id none s).0 in
      rw p (
        still _ (
          ground (
            arith,
            h.there,
            h.lasts,
            get-set (request_key r) key (new_lock later r) s'.locks,
            get-release_lock later r.item_id r.project_id none s key,
            eq_iff (request_key r) key,
          )))
  acquire-Held now later r early other (refused lock e late d p) = rw p h
  acquire-Held now later r early other (renewed lock e late same p) = rw p (
      still _ (
        ground (
          arith,
          h.there,
          h.owner,
          other,
          eq_iff lock.user_id r.user_id,
          get-set (request_key r) key (record lock { expires_at = now + lock_expiration_ms })
              s.locks,
          eq_iff (request_key r) key,
        )))

  get-is_locked :
      (now : ℕ) (item project : String)
      → now ≤ deadline
      → JsMap.get key (is_locked now item project s).0.locks ≡ JsMap.get key s.locks
  get-is_locked now item project early = elim (is_locked_lem now item project s) [
    | inl e ↦ rw e
    | inr (lock, e, late, p, _, _) ↦ rw p (
        ground (
          arith,
          h.there,
          h.lasts,
          get-delete (lock_key item project) key s.locks,
          eq_iff (lock_key item project) key,
        ))
  ]

  pub get-process_queued :
      (now : ℕ) (item project : String)
      → now ≤ deadline
      → JsMap.get key (process_queued now item project s).0.locks ≡ JsMap.get key s.locks
  unfolding process_queued
  get-process_queued now item project early = ground (arith, get-is_locked now item project early)

step-Held :
    (user key : String) (deadline : ℕ) (c : Call) {s : LockQueue}
    → IsConsistent s
    → Foreign user deadline c
    → Held user key deadline s
    → Held user key deadline (step c s)
unfolding step queue_edit
step-Held user key deadline (acquire now later r) {s} c f h =
    acquire-Held user key deadline h now later r f.0 f.1 (acquire_lock_lem now later r s)
step-Held user key deadline (release now item project none) c f h = absurd f
step-Held user key deadline (release now item project (some v)) {s} c f h =
    still user key deadline h _ (
      ground (
        arith,
        get-release_lock now item project (some v) s key,
        h.there,
        h.owner,
        f.0,
        f.1,
        eq_iff v "",
        eq_iff h.lock.user_id v,
      ))
step-Held user key deadline (release_all now v) {s} c f h = still user key deadline h _ (
    ground (
      arith,
      get-release_all_user_locks now v s key c,
      h.there,
      h.owner,
      f,
      eq_iff h.lock.user_id v,
    ))
step-Held user key deadline (query now item project) {s} c f h =
    still user key deadline h _ (get-is_locked user key deadline h now item project f)
step-Held user key deadline (process now item project) {s} c f h =
    still user key deadline h _ (get-process_queued user key deadline h now item project f)
step-Held user key deadline (enqueue now r edit_data priority) c f h =
    still user key deadline h _ refl
step-Held user key deadline (cleanup now) {s} c f h =
    still user key deadline h _
      (ground (arith, get-cleanup_expired_locks now s key c, h.there, h.lasts))

run-Held :
    (user key : String) (deadline : ℕ) (cs : List Call) {s : LockQueue}
    → IsConsistent s
    → All (Foreign user deadline) cs
    → Held user key deadline s
    → Held user key deadline (run cs s)
unfolding run
run-Held user key deadline [] c f h = h
run-Held user key deadline (x ∷ cs) c f h =
    run-Held user key deadline cs (step-IsConsistent x c) f.1
      (step-Held user key deadline x c f.0 h)

-- Whoever is granted a lock has it until the time that the answer gives.
pub granted-Held :
    (now later : ℕ) (r : Request) (s : LockQueue) (deadline : ℕ)
    → (acquire_lock now later r s).1 ≡ granted deadline
    → Outcome now later r s
    → Held r.user_id (request_key r) deadline (acquire_lock now later r s).0
unfolding acquire_install renew
granted-Held now later r s deadline g (fresh e p) = record {
  lock = new_lock now r;
  there = rw p (
      ground (
        arith,
        get-set (request_key r) (request_key r) (new_lock now r) s.locks,
        eq_refl (request_key r),
      ));
  owner = refl;
  lasts = ground (arith, p, g);
}
granted-Held now later r s deadline g (taken_over lock e late p) =
    let s' = (release_lock later r.item_id r.project_id none s).0 in
    record {
      lock = new_lock later r;
      there = rw p (
          ground (
            arith,
            get-set (request_key r) (request_key r) (new_lock later r) s'.locks,
            eq_refl (request_key r),
          ));
      owner = refl;
      lasts = ground (arith, p, g);
    }
granted-Held now later r s deadline g (refused lock e late d p) = absurd (ground (arith, p, g))
granted-Held now later r s deadline g (renewed lock e late same p) =
    let l = record lock { expires_at = now + lock_expiration_ms } in
    record {
      lock = l;
      there = rw p (
          ground
            (arith, get-set (request_key r) (request_key r) l s.locks, eq_refl (request_key r)));
      owner = (eq_iff _ _).0 same;
      lasts = ground (arith, p, g);
    }

-- Somebody else's request for the item is denied up to the deadline, and changes nothing.
refuses-others :
    (user key : String) (deadline now later : ℕ) (r : Request) {s : LockQueue}
    → Held user key deadline s
    → now ≤ deadline
    → request_key r ≡ key
    → r.user_id ≢ user
    → Outcome now later r s
    → (name : String) × (expires : ℕ) × (acquire_lock now later r s ≡ (s, denied name expires))
      × (deadline ≤ expires)
refuses-others user key deadline now later r h early k other (fresh e p) =
    absurd (ground (arith, h.there, k, e))
refuses-others user key deadline now later r h early k other (taken_over lock e late p) =
    absurd (ground (arith, h.there, h.lasts, k, e))
refuses-others user key deadline now later r h early k other (refused lock e late d p) =
    (or_else lock.username lock.user_id, lock.expires_at, p, ground (arith, h.there, h.lasts, k, e))
refuses-others user key deadline now later r h early k other (renewed lock e late same p) =
    absurd (ground (arith, h.there, h.owner, other, k, e, eq_iff lock.user_id r.user_id))

-- Mutual exclusion: from a consistent state in which a user is granted an item's lock until a
-- deadline, and after any history of calls by others that are not later than the deadline (requests
-- of other users, releases named for other users, queries, edits that are queued or taken from a
-- queue, clean-ups), another user's request for the item, not later than the deadline, is denied:
-- it changes nothing, and the expiry that it is told is not before the deadline.
pub exclusion :
    (now later : ℕ) (r : Request) (s : LockQueue) (deadline : ℕ) (cs : List Call) (now' later' : ℕ)
    (q : Request)
    → IsConsistent s
    → (acquire_lock now later r s).1 ≡ granted deadline
    → All (Foreign r.user_id deadline) cs
    → now' ≤ deadline
    → request_key q ≡ request_key r
    → q.user_id ≢ r.user_id
    → (name : String) × (expires : ℕ) × (acquire_lock now' later' q
          (run cs (acquire_lock now later r s).0)
        ≡ (run cs (acquire_lock now later r s).0, denied name expires))
      × (deadline ≤ expires)
exclusion now later r s deadline cs now' later' q c g f early k other =
    let held = granted-Held now later r s deadline g (acquire_lock_lem now later r s) in
    refuses-others r.user_id (request_key r) deadline now' later' q
      (run-Held r.user_id (request_key r) deadline cs (acquire_lock-IsConsistent now later r c) f
        held)
      early k other (acquire_lock_lem now' later' q _)

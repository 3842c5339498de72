-- ===== src/LockQueue/Acquire.antt =====
-- The four outcomes of `acquireLock` of src/socket/lock-queue.service.ts, as its conditions tell them
-- apart.
use starsyncbackend.Prelude.{
  ℕ, true, false, ◌≡◌, none, some, arith, ◌<◌, ◌≤◌, eq_refl, ◌==◌, Option-cases, Bool-cases, inl,
  inr, ltb, or_else,
}
use starsyncbackend.JsMap
use starsyncbackend.JsMap.{get-set, get-delete}
use starsyncbackend.LockQueue.{
  LockQueue, ItemLock, Request, request_key, release_lock, absent, expired, of_other, of_self,
  acquire_check, acquire_install, acquire_lock, renew, denied,
}
use starsyncbackend.LockQueue.Release.{releases, release_lock_lem}

module _ (now : ℕ) (r : Request) (s : LockQueue) where
  acquire_check_absent : JsMap.get (request_key r) s.locks ≡ none → acquire_check now r s ≡ absent
  unfolding acquire_check
  acquire_check_absent e = ground arith

  module _ (lock : ItemLock) (there : JsMap.get (request_key r) s.locks ≡ some lock) where
    acquire_check_expired : lock.expires_at < now → acquire_check now r s ≡ expired
    unfolding acquire_check
    acquire_check_expired h = ground arith

    acquire_check_other :
        now ≤ lock.expires_at
        → (lock.user_id == r.user_id) ≡ false
        → acquire_check now r s ≡ of_other lock
    unfolding acquire_check
    acquire_check_other h e = ground arith

    acquire_check_self :
        now ≤ lock.expires_at
        → (lock.user_id == r.user_id) ≡ true
        → acquire_check now r s ≡ of_self lock
    unfolding acquire_check
    acquire_check_self h e = ground arith

pub data Outcome (now later : ℕ) (r : Request) (s : LockQueue) : Type 0 where
  -- there was no lock
  fresh :
      JsMap.get (request_key r) s.locks ≡ none
      → acquire_lock now later r s ≡ acquire_install now r s
      → Outcome now later r s
  -- an expired lock was released first
  taken_over :
      (lock : ItemLock)
      → JsMap.get (request_key r) s.locks ≡ some lock
      → lock.expires_at < now
      → acquire_lock now later r s
        ≡ acquire_install later r (release_lock later r.item_id r.project_id none s).0
      → Outcome now later r s
  -- another user's lock is in force
  refused :
      (lock : ItemLock)
      → JsMap.get (request_key r) s.locks ≡ some lock
      → now ≤ lock.expires_at
      → (lock.user_id == r.user_id) ≡ false
      → acquire_lock now later r s
        ≡ (s, denied (or_else lock.username lock.user_id) lock.expires_at)
      → Outcome now later r s
  -- the user's own lock is in force
  renewed :
      (lock : ItemLock)
      → JsMap.get (request_key r) s.locks ≡ some lock
      → now ≤ lock.expires_at
      → (lock.user_id == r.user_id) ≡ true
      → acquire_lock now later r s ≡ renew now r lock s
      → Outcome now later r s

pub acquire_lock_lem : (now later : ℕ) (r : Request) (s : LockQueue) → Outcome now later r s
unfolding acquire_lock
acquire_lock_lem now later r s = elim (Option-cases (JsMap.get (request_key r) s.locks)) [
  | inl e ↦ fresh e (rw (acquire_check_absent now r s e, acquire_lock))
  | inr (lock, e) ↦ elim (Bool-cases (ltb lock.expires_at now)) [
    | inl t ↦
        let h : lock.expires_at < now = ground arith in
        taken_over lock e h (rw (acquire_check_expired now r s lock e h, acquire_lock))
    | inr t ↦
        let h : now ≤ lock.expires_at = ground arith in
        elim (Bool-cases (lock.user_id == r.user_id)) [
          | inl same ↦
              renewed lock e h same (rw (acquire_check_self now r s lock e h same, acquire_lock))
          | inr differ ↦
              refused lock e h differ
                (rw (acquire_check_other now r s lock e h differ, acquire_lock))
        ]
  ]
]

-- After the release of an expired lock its item is free.
pub released_free :
    (later : ℕ) (r : Request) (s : LockQueue) (lock : ItemLock)
    → JsMap.get (request_key r) s.locks ≡ some lock
    → JsMap.get (request_key r) (release_lock later r.item_id r.project_id none s).0.locks ≡ none
unfolding releases
released_free later r s lock e = elim (release_lock_lem later r.item_id r.project_id none s) [
  | inl (no_release, _) ↦ absurd (impossible no_release)
  | inr (_, _, _, _, _, p, _, _) ↦
      rw p (
        ground (arith, get-delete (request_key r) (request_key r) s.locks, eq_refl (request_key r)))
]
  where
    impossible : releases r.item_id r.project_id none s ≡ false → ⊥
    impossible h = ground arith

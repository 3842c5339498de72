-- ===== src/LockQueue/Race.antt =====
-- Two requests that interleave at the await of `acquireLockImpl`, and the text of a lock's key.
use Prim.Native.String.{◌++◌ as concat}
use text.Mathlib.TextLemmas.{append_assoc}
use starsyncbackend.Prelude.{ℕ, String, ◌≡◌, ◌≢◌, refl, none, some, arith, ◌≤◌, ◌+◌, eq_refl}
use starsyncbackend.JsMap
use starsyncbackend.JsMap.{get-set, get-delete}
use starsyncbackend.LockQueue.{
  LockQueue, Request, lock_key, request_key, release_start, process_queued, acquire_check,
  acquire_install, acquire_lock, expired, granted, new_lock, lock_expiration_ms,
}
use starsyncbackend.LockQueue.Lease.{Held, granted-Held, still, get-process_queued}
use starsyncbackend.LockQueue.Acquire.{acquire_lock_lem}

-- The release of an expired lock, up to its await, frees the item.
start_frees :
    (now : ℕ) (r : Request) (s : LockQueue)
    → acquire_check now r s ≡ expired
    → JsMap.get (request_key r) (release_start r.item_id r.project_id none s).0.locks ≡ none
unfolding acquire_check release_start
start_frees now r s e =
    ground (arith, get-delete (request_key r) (request_key r) s.locks, eq_refl (request_key r))

acquire_free :
    (now later : ℕ) (r : Request) (s : LockQueue)
    → JsMap.get (request_key r) s.locks ≡ none
    → (acquire_lock now later r s).1 ≡ granted (now + lock_expiration_ms)
unfolding acquire_lock acquire_check acquire_install
acquire_free now later r s e = ground arith

-- Two users ask for the same item, whose lock has expired, and the second request runs whole while
-- the first awaits the release of the expired lock. The second is granted the lock for five
-- minutes, and has it when the first, which resumes within these five minutes, goes on; the first
-- is granted the lock too, and its lock stands in the place of the second's.
pub acquire_race :
    (now between resumed later : ℕ) (first second : Request) (s : LockQueue)
    → acquire_check now first s ≡ expired
    → request_key second ≡ request_key first
    → first.user_id ≢ second.user_id
    → resumed ≤ between + lock_expiration_ms
    → let s1 = (release_start first.item_id first.project_id none s).0 in
      let s2 = (acquire_lock between between second s1).0 in
      let s3 = (process_queued resumed first.item_id first.project_id s2).0 in
      ((acquire_lock between between second s1).1 ≡ granted (between + lock_expiration_ms))
      × Held second.user_id (request_key first) (between + lock_expiration_ms) s3
      × ((acquire_install later first s3).1 ≡ granted (later + lock_expiration_ms))
      × (JsMap.get (request_key first) (acquire_install later first s3).0.locks
          ≡ some (new_lock later first))
unfolding acquire_install
acquire_race now between resumed later first second s e k other soon =
    let key = request_key first in
    let s1 = (release_start first.item_id first.project_id none s).0 in
    let s2 = (acquire_lock between between second s1).0 in
    let s3 = (process_queued resumed first.item_id first.project_id s2).0 in
    let deadline = between + lock_expiration_ms in
    let grant = acquire_free between between second s1 (rw k (start_frees now first s e)) in
    let held =
      granted-Held between between second s1 deadline grant
        (acquire_lock_lem between between second s1) in
    let held' = rw k at held in
    (
      grant,
      still second.user_id key deadline held' s3 (
          get-process_queued second.user_id key deadline held' resumed first.item_id
            first.project_id soon),
      refl,
      ground (arith, get-set key key (new_lock later first) s3.locks, eq_refl key),
    )

-- The item x:y of the project p and the item y of the project p:x have one lock key, for all texts.
pub lock_key_collision :
    (p x y : String) → lock_key (concat x (concat ":" y)) p ≡ lock_key y (concat p (concat ":" x))
unfolding lock_key
lock_key_collision p x y = simp append_assoc

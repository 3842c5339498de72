-- ===== src/SyncGateway/Locks/Kept.antt =====
-- The state of src/socket/sync.gateway.ts over requests and releases of locks.
use starsyncbackend.Prelude.{
  ℕ, String, [], Bool, true, false, some, inl, inr, Option-cases, Bool-cases, if◌then◌else◌,
}
use starsyncbackend.Json.{Json, is_truthy}
use starsyncbackend.JsMap
use starsyncbackend.LockQueue
use starsyncbackend.LockQueue.{AcquireResult, granted, denied, acquire_lock, release_lock}
use starsyncbackend.LockQueue.History.{step, acquire, release, enqueue, process}
use starsyncbackend.SyncGateway.{SyncGateway, Env, Sent, key_of, try_payload_cases}
use starsyncbackend.SyncGateway.Sound.{IsSound, Reached, next}
use starsyncbackend.SyncGateway.Locks.{
  with_locks, answer_request, handle_lock_request, announce_release, handle_lock_released,
  lock_request, priority_of,
}

with_locks-IsSound :
    {g : SyncGateway} (q : LockQueue.LockQueue) → Reached q → IsSound g → IsSound (with_locks g q)
with_locks-IsSound q r s = record { rooms = s.rooms; users = s.users; locks = r }

answer_request-IsSound :
    (e : Env) (client : String) (q : String → Json) (a : AcquireResult) {g : SyncGateway}
    → IsSound g
    → IsSound (answer_request e client q a g).0
unfolding answer_request step
answer_request-IsSound e client q (granted expires) s = s
answer_request-IsSound e client q (denied name expires) {g} s =
    elim (Bool-cases (is_truthy (q "editData"))) [
      | inl t ↦ rw t (
          with_locks-IsSound _
            (next (enqueue e.now (lock_request e q) (q "editData") (priority_of (q "priority")))
              s.locks)
            s)
      | inr t ↦ rw t s
    ]

request_body-IsSound :
    (later : ℕ) (e : Env) (client : String) (q : String → Json) (incomplete : Bool) (refusal : Sent)
    {g : SyncGateway}
    → IsSound g
    → let r = acquire_lock e.now later (lock_request e q) g.lock_queue in
      IsSound
        (if incomplete then (g, refusal) else answer_request e client q r.1 (with_locks g r.0)).0
unfolding step
request_body-IsSound later e client q true refusal s = s
request_body-IsSound later e client q false refusal s =
    answer_request-IsSound e client q _
      (with_locks-IsSound _ (next (acquire e.now later (lock_request e q)) s.locks) s)

pub handle_lock_request-IsSound :
    (later : ℕ) (e : Env) (client : String) (data' : Json) {g : SyncGateway}
    → IsSound g
    → IsSound (handle_lock_request later e client data' g).0
unfolding handle_lock_request
handle_lock_request-IsSound later e client data' {g} s =
    try_payload_cases {A = SyncGateway × Sent} (λ r. IsSound r.0) e data' _ _ s
      λ p q _ _. request_body-IsSound later e client q _ _ s

announce_release-IsSound :
    (later : ℕ) (e : Env) (q : String → Json) {g : SyncGateway}
    → IsSound g
    → IsSound (announce_release later e q g).0
unfolding announce_release step
announce_release-IsSound later e q {g} s =
    elim (Option-cases (JsMap.get (key_of e (q "projectId")) g.rooms)) [
      | inl n ↦ rw (n, announce_release) s
      | inr (clients, h) ↦
          rw (h, announce_release)
            (with_locks-IsSound _
              (next (process later (key_of e (q "itemId")) (key_of e (q "projectId"))) s.locks) s)
    ]

release_body-IsSound :
    (later : ℕ) (e : Env) (q : String → Json) (incomplete : Bool) {g : SyncGateway}
    → IsSound g
    → let user = some (key_of e (q "userId")) in
      let r =
        release_lock later (key_of e (q "itemId")) (key_of e (q "projectId")) user g.lock_queue in
      IsSound
        (if incomplete
          then (g, [])
          else (if r.1
              then announce_release later e q (with_locks g r.0)
              else (with_locks g r.0, []))).0
unfolding step
release_body-IsSound later e q true s = s
release_body-IsSound later e q false {g} s =
    let user = some (key_of e (q "userId")) in
    let r =
      release_lock later (key_of e (q "itemId")) (key_of e (q "projectId")) user g.lock_queue in
    let s' : IsSound (with_locks g r.0) =
      with_locks-IsSound _
        (next (release later (key_of e (q "itemId")) (key_of e (q "projectId")) user) s.locks) s in
    elim (Bool-cases r.1) [
      | inl ok ↦ rw ok (announce_release-IsSound later e q s')
      | inr failed ↦ rw failed s'
    ]

pub handle_lock_released-IsSound :
    (later : ℕ) (e : Env) (client : String) (data' : Json) {g : SyncGateway}
    → IsSound g
    → IsSound (handle_lock_released later e client data' g).0
unfolding handle_lock_released
handle_lock_released-IsSound later e client data' {g} s =
    try_payload_cases {A = SyncGateway × Sent} (λ r. IsSound r.0) e data' _ _ s
      λ p q _ _. release_body-IsSound later e q _ s

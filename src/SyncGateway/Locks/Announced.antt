-- ===== src/SyncGateway/Locks/Announced.antt =====
-- What clients of src/socket/sync.gateway.ts hear when a lock is released.
use starsyncbackend.Prelude.{
  ℕ, String, Bool, true, false, not, ◌||◌, List, [], some, if◌then◌else◌, ◌≡◌, inl, inr, refl,
  arith, Option-cases, Bool-cases,
}
use mathlib.Core.List.{append-nil}
use starsyncbackend.Json.{Json, is_truthy}
use starsyncbackend.JsMap
use starsyncbackend.LockQueue.{LockQueue, release_lock, process_queued}
use starsyncbackend.LockQueue.Waiting.{release_drops_queue}
use starsyncbackend.SyncGateway.{SyncGateway, Env, Sent, send_all, key_of, try_payload_cases}
use starsyncbackend.SyncGateway.Locks.{
  handle_lock_released, announce_release, released_message, with_locks,
}

-- Nothing is sent, or the one message that the lock is released, to the open connections of a room.
pub data OnlyRelease (e : Env) (g : SyncGateway) (sent : Sent) : Type 0 where
  silent : sent ≡ [] → OnlyRelease e g sent
  announced :
      (q : String → Json) (clients : List String)
      → JsMap.get (key_of e (q "projectId")) g.rooms ≡ some clients
      → sent ≡ send_all e (released_message q) clients
      → OnlyRelease e g sent

announce_release_lem :
    (later : ℕ) (e : Env) (q : String → Json) (g : SyncGateway) (locks : LockQueue)
    → process_queued later (key_of e (q "itemId")) (key_of e (q "projectId")) locks ≡ (locks, [])
    → OnlyRelease e g (announce_release later e q (with_locks g locks)).1
unfolding announce_release
announce_release_lem later e q g locks h =
    elim (Option-cases (JsMap.get (key_of e (q "projectId")) g.rooms)) [
      | inl n ↦ silent (ground (arith, n))
      | inr (clients, r) ↦
          announced q clients r
            (ground (arith, r, h, append-nil (send_all e (released_message q) clients)))
    ]

released_body :
    (later : ℕ) (e : Env) (g : SyncGateway) (q : String → Json)
    → let user = some (key_of e (q "userId")) in
      let r =
        release_lock later (key_of e (q "itemId")) (key_of e (q "projectId")) user g.lock_queue in
      OnlyRelease e g
        (if r.1 then announce_release later e q (with_locks g r.0) else (with_locks g r.0, [])).1
released_body later e g q =
    let item = key_of e (q "itemId") in
    let project = key_of e (q "projectId") in
    let user = some (key_of e (q "userId")) in
    let r = release_lock later item project user g.lock_queue in
    elim (Bool-cases r.1) [
      | inl ok ↦ rw ok (
          announce_release_lem later e q g r.0
            (release_drops_queue later later item project user g.lock_queue ok).1)
      | inr failed ↦ rw failed (silent refl)
    ]

request_body :
    (later : ℕ) (e : Env) (g : SyncGateway) (q : String → Json) (incomplete : Bool)
    → let user = some (key_of e (q "userId")) in
      let r =
        release_lock later (key_of e (q "itemId")) (key_of e (q "projectId")) user g.lock_queue in
      OnlyRelease e g
        (if incomplete
          then (g, [])
          else (if r.1
              then announce_release later e q (with_locks g r.0)
              else (with_locks g r.0, []))).1
request_body later e g q true = silent refl
request_body later e g q false = released_body later e g q

abbrev is_incomplete : (String → Json) → Bool
is_incomplete q =
    not (is_truthy (q "itemId")) || not (is_truthy (q "userId")) || not (is_truthy (q "projectId"))

-- When a lock is released over the gateway, no queued edit is announced to anybody: all that is
-- sent, if anything, is the release itself, to the open connections of a room.
pub no_edit_announced :
    (later : ℕ) (e : Env) (client : String) (data' : Json) (g : SyncGateway)
    → OnlyRelease e g (handle_lock_released later e client data' g).1
unfolding handle_lock_released
no_edit_announced later e client data' g =
    try_payload_cases {A = SyncGateway × Sent} (λ r. OnlyRelease e g r.1) e data' _ _ (silent refl)
      λ p q _ _. request_body later e g q (is_incomplete q)

-- ===== src/SyncGateway/Locks.antt =====
-- `handleLockRequest` and `handleLockReleased` of src/socket/sync.gateway.ts, each run to its end.
pub mod Announced
pub mod Kept
use starsyncbackend.Prelude.{
  zero, suc, ℕ, String, Bool, true, false, not, ◌||◌, List, [], ◌∷◌, ◌++◌, none, some,
  if◌then◌else◌, ◌≡◌, ◌⊎◌, inl, inr, refl, arith, Option, Option-cases, Bool-cases, get_or,
}
use starsyncbackend.Prelude.Int.{ℤ, pos}
use starsyncbackend.Json.{
  Json, Fields, bool, num, str, end, field, is_truthy, value_or, event_data, event_object,
}
use starsyncbackend.JsMap
use starsyncbackend.SetMap.{members_of}
use starsyncbackend.LockQueue.{
  LockQueue, QueuedEdit, Request, AcquireResult, granted, denied, acquire_lock, release_lock,
  process_queued, queue_edit, lock_key,
}
use starsyncbackend.LockQueue.Waiting.{release_drops_queue}
use starsyncbackend.SyncGateway.{
  SyncGateway, Env, Sent, try_payload, send_json, send_all, send_others, key_of, relay_room,
  payload_of,
}

abbrev error_message : String → Json
error_message text = event_object "error" (field "message" (str text) end)

-- `{ itemId, itemType, projectId, ...rest }`
abbrev item_fields : (String → Json) → Fields → Fields
item_fields q rest =
    field "itemId" (q "itemId")
      (field "itemType" (q "itemType") (field "projectId" (q "projectId") rest))

-- `payload.priority || 0`, where it is a number.
abbrev priority_of : Json → ℤ
priority_of (num n) = n
priority_of _ = pos 0

abbrev lock_request : Env → (String → Json) → Request
lock_request e q = record {
  item_id = key_of e (q "itemId");
  item_type = key_of e (q "itemType");
  user_id = key_of e (q "userId");
  username = key_of e (value_or (q "username") (q "userId"));
  project_id = key_of e (q "projectId");
}

abbrev with_locks : SyncGateway → LockQueue → SyncGateway
with_locks g locks = record g { lock_queue = locks }

-- The two branches behind the await of `acquireLock`.
answer_request : Env → String → (String → Json) → AcquireResult → SyncGateway → SyncGateway × Sent
answer_request e client q (granted expires) g = (
  g,
  send_json e client
        (event_data "lockAcquired" (item_fields q (field "lockExpiresAt" (num (pos expires)) end)))
      ++ relay_room e client (q "projectId")
          (event_data "lockAcquired" (
            field "itemId" (q "itemId") (
              field "itemType" (q "itemType") (
                field "lockedBy" (value_or (q "username") (q "userId")) (
                  field "projectId" (q "projectId")
                    (field "lockExpiresAt" (num (pos expires)) end))))))
          g,
)
answer_request e client q (denied name expires) g =
    let refusal = send_json e client (
      event_data "lockDenied" (
        item_fields q
          (field "lockedBy" (str name) (field "lockExpiresAt" (num (pos expires)) end)))) in
    let (locks, position) =
      queue_edit e.now (lock_request e q) (q "editData") (priority_of (q "priority"))
        g.lock_queue in
    if is_truthy (q "editData")
    then (
      with_locks g locks,
      refusal
          ++ send_json e client (
              event_data "editQueued"
                (item_fields q (field "queuePosition" (num (pos position)) end))),
    )
    else (g, refusal)

-- `later` is the time after the await.
pub handle_lock_request : ℕ → Env → String → Json → SyncGateway → SyncGateway × Sent
unfolding answer_request
handle_lock_request later e client data' g =
    try_payload e data' (g, send_json e client (error_message "Failed to process lock request"))
      λ q.
        if not (is_truthy (q "itemId"))
          || not (is_truthy (q "itemType"))
          || not (is_truthy (q "userId"))
          || not (is_truthy (q "projectId"))
        then (g, send_json e client (error_message "Invalid lock request: missing required fields"))
        else let (locks, result) = acquire_lock e.now later (lock_request e q) g.lock_queue in
          answer_request e client q result (with_locks g locks)

-- The loop over the edits that may now be applied; `i` counts them.
announce_edits : Env → (String → Json) → ℕ → List QueuedEdit → SyncGateway → Sent
announce_edits e q i [] g = []
announce_edits e q i (edit ∷ edits) g =
    send_all e
      (event_data "editQueued" (
        field "itemId" (q "itemId") (
          field "itemType" (str edit.item_type) (
            field "projectId" (q "projectId") (
              field "queuePosition" (num (pos i))
                (field "canProcess" (bool true) (field "editData" edit.edit_data end)))))))
      (members_of edit.user_id g.user_connections)
    ++ announce_edits e q (suc i) edits g

abbrev released_message : (String → Json) → Json
released_message q = event_data "lockReleased" (
    field "itemId" (q "itemId")
      (field "projectId" (q "projectId") (field "releasedBy" (q "userId") end)))

-- What follows a release that succeeded, in the state after it.
announce_release : ℕ → Env → (String → Json) → SyncGateway → SyncGateway × Sent
unfolding announce_edits
announce_release later e q g = elim (JsMap.get (key_of e (q "projectId")) g.rooms) [
  | none ↦ (g, [])
  | some clients ↦
      let (locks, edits) =
        process_queued later (key_of e (q "itemId")) (key_of e (q "projectId")) g.lock_queue in
      let g' = with_locks g locks in
      (g', send_all e (released_message q) clients ++ announce_edits e q 0 edits g')
]

pub handle_lock_released : ℕ → Env → String → Json → SyncGateway → SyncGateway × Sent
unfolding announce_release
handle_lock_released later e client data' g =
    try_payload e data' (g, [])
      λ q.
        if not (is_truthy (q "itemId"))
          || not (is_truthy (q "userId"))
          || not (is_truthy (q "projectId"))
        then (g, [])
        else let (locks, released) =
            release_lock later (key_of e (q "itemId")) (key_of e (q "projectId"))
              (some (key_of e (q "userId"))) g.lock_queue in
          let g' = with_locks g locks in
          if released then announce_release later e q g' else (g', [])

-- ===== src/SyncGateway/Messages/Invariant.antt =====
-- The state of src/socket/sync.gateway.ts over histories of messages, closings and timers.
use starsyncbackend.Prelude.{
  ℕ, String, List, [], ◌∷◌, Option, none, some, get_or, inl, inr, Option-cases,
}
use starsyncbackend.Json.{Json, members}
use starsyncbackend.LockQueue.History.{step, cleanup}
use starsyncbackend.SetMap.{empty-IsProper}
use starsyncbackend.SyncGateway.{SyncGateway, Env}
use starsyncbackend.SyncGateway.Sound.{IsSound, SameSets-IsSound, initially, next}
use starsyncbackend.SyncGateway.Rooms.Kept.{
  join_project-IsSound, leave_project-IsSound, handle_disconnect-IsSound,
}
use starsyncbackend.SyncGateway.Share.Kept.{
  handle_register_user-IsSound, handle_share_project-SameSets, handle_share_project_update-SameSets,
}
use starsyncbackend.SyncGateway.Locks.Kept.{
  handle_lock_request-IsSound, handle_lock_released-IsSound,
}
use starsyncbackend.SyncGateway.Messages.{
  Event, register, shared, shared_update, join, leave, lock_request, lock_released, sync, ping,
  unknown, relayed, Handled, handle_event, handle_message, on_message, start, Happening, message,
  close, tick, happen, history, room_payload, event_named, invalid_format,
}

-- The state of an answer, if there is one, is sound.
abbrev SoundIfSome : Option Handled → Type 0
SoundIfSome none = Unit
SoundIfSome (some h) = IsSound h.0

handle_event-IsSound :
    (later : ℕ) (e : Env) (event : Event) (client : String) (data' : Json) {g : SyncGateway}
    → IsSound g
    → SoundIfSome (handle_event later e event client data' g)
unfolding handle_event
handle_event-IsSound later e register client data' s = handle_register_user-IsSound e client data' s
handle_event-IsSound later e shared client data' {g} s =
    SameSets-IsSound (handle_share_project-SameSets e client data' g) s
handle_event-IsSound later e shared_update client data' {g} s =
    SameSets-IsSound (handle_share_project_update-SameSets e client data' g) s
handle_event-IsSound later e join client data' s = elim (Option-cases (room_payload e data')) [
  | inl n ↦ rw (n, handle_event) tt
  | inr (q, h) ↦ rw (h, handle_event) (join_project-IsSound e client (q "projectId") (q "userId") s)
]
handle_event-IsSound later e leave client data' s = elim (Option-cases (room_payload e data')) [
  | inl n ↦ rw (n, handle_event) tt
  | inr (q, h) ↦
      rw (h, handle_event) (leave_project-IsSound e client (q "projectId") (q "userId") s)
]
handle_event-IsSound later e lock_request client data' s =
    handle_lock_request-IsSound later e client data' s
handle_event-IsSound later e lock_released client data' s =
    handle_lock_released-IsSound later e client data' s
handle_event-IsSound later e sync client data' s = elim (Option-cases (room_payload e data')) [
  | inl n ↦ rw (n, handle_event) tt
  | inr (q, h) ↦ rw (h, handle_event) s
]
handle_event-IsSound later e ping client data' s = s
handle_event-IsSound later e unknown client data' s = s
handle_event-IsSound later e (relayed event) client data' s = s

or_else-IsSound :
    (o : Option Handled) (h : Handled) → SoundIfSome o → IsSound h.0 → IsSound (get_or o h).0
or_else-IsSound none h a s = s
or_else-IsSound (some x) h a s = a

on_message-IsSound :
    (later : ℕ) (e : Env) (client text : String) {g : SyncGateway}
    → IsSound g
    → IsSound (on_message later e client text g).0
unfolding on_message handle_message invalid_format
on_message-IsSound later e client text {g} s = elim (Option-cases (e.parse text)) [
  | inl n ↦ rw (n, on_message) s
  | inr (parsed, h) ↦
      rw (h, on_message)
        (elim (Option-cases (members parsed)) [
          | inl n ↦ rw n s
          | inr (q, m) ↦ rw m (
              or_else-IsSound _ (invalid_format client g)
                (handle_event-IsSound later e (event_named (q "event")) client (q "data") s) s)
        ])
]

happen-IsSound : (h : Happening) {g : SyncGateway} → IsSound g → IsSound (happen h g)
unfolding happen step
happen-IsSound (message later e client text) s = on_message-IsSound later e client text s
happen-IsSound (close e client) s = handle_disconnect-IsSound e client s
happen-IsSound (tick now) s = record {
  rooms = s.rooms;
  users = s.users;
  locks = next (cleanup now) s.locks;
}

history_keeps : (hs : List Happening) {g : SyncGateway} → IsSound g → IsSound (history hs g)
unfolding history
history_keeps [] s = s
history_keeps (h ∷ hs) s = history_keeps hs (happen-IsSound h s)

-- Whatever texts come over the socket, whichever connections close and however often the timer
-- runs, each handler of a lock run to its end: no room and no user's set of connections is empty,
-- stands under a name twice or has a connection twice, and the lock service is in a state that a
-- sequence of its own calls leads to.
pub history-IsSound : (hs : List Happening) → IsSound (history hs start)
history-IsSound hs =
    history_keeps hs (record { rooms = empty-IsProper; users = empty-IsProper; locks = initially })

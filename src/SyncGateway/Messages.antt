-- ===== src/SyncGateway/Messages.antt =====
-- `onModuleInit`'s handler of a message and `handleMessage` of src/socket/sync.gateway.ts: the event's
-- name picks the handler. `processMessage` is begun here and runs beyond the handler (see Notes), so
-- what it is begun with is part of the answer. The handlers of locks are run to their end.
pub mod Invariant
use starsyncbackend.Prelude.{
  ℕ, String, Bool, true, false, List, [], ◌∷◌, Option, none, some, get_or, if◌then◌else◌,
}
use starsyncbackend.Prelude.Int.{pos}
use starsyncbackend.Json.{
  Json, undefined, str, num, obj, arr, field, end, members, nullish_or, event_object,
}
use starsyncbackend.JsMap
use starsyncbackend.LockQueue
use starsyncbackend.LockQueue.{cleanup_expired_locks}
use starsyncbackend.SyncGateway.{SyncGateway, Env, Sent, key_of, send_json}
use starsyncbackend.SyncGateway.Relay.{
  RelayEvent, cursor_position, playback_state, tempo_change, tempo_automation, automation,
  marker_added, marker_updated, marker_deleted, undo, redo, plugin, handle_relay,
}
use starsyncbackend.SyncGateway.Rooms.{join_project, leave_project, handle_disconnect}
use starsyncbackend.SyncGateway.Share.{
  handle_register_user, handle_share_project, handle_share_project_update,
}
use starsyncbackend.SyncGateway.Locks.{handle_lock_request, handle_lock_released}

pub data Event : Type 0 where
  register shared shared_update join leave : Event
  lock_request lock_released sync ping unknown : Event
  relayed : RelayEvent → Event

abbrev automations : List String
automations =
    "automationLaneCreate" ∷ "automationLaneDelete" ∷ "automationLaneUpdate" ∷ "automationPointAdd"
    ∷ "automationPointRemove" ∷ "automationPointMove" ∷ []

abbrev automation_events : List String → List (String × Event)
automation_events [] = []
automation_events (name ∷ names) = (name, relayed (automation name)) ∷ automation_events names

-- The cases of the `switch`.
abbrev cases : List (String × Event)
cases =
    ("registerUser", register)
    ∷ ("shareProject", shared)
    ∷ ("shareProjectUpdate", shared_update)
    ∷ ("joinProject", join)
    ∷ ("leaveProject", leave)
    ∷ ("cursorPosition", relayed cursor_position)
    ∷ ("playbackState", relayed playback_state)
    ∷ ("tempoChange", relayed tempo_change)
    ∷ ("tempoAutomation", relayed tempo_automation)
    ∷ ("markerAdded", relayed marker_added)
    ∷ ("markerUpdated", relayed marker_updated)
    ∷ ("markerDeleted", relayed marker_deleted)
    ∷ ("lockRequest", lock_request)
    ∷ ("lockReleased", lock_released)
    ∷ ("sync", sync)
    ∷ ("undo", relayed undo)
    ∷ ("redo", relayed redo)
    ∷ ("ping", ping)
    ∷ ("plugin", relayed plugin)
    ∷ automation_events automations

event_named : Json → Event
event_named (str name) = get_or (JsMap.get name cases) unknown
event_named _ = unknown

-- The payload of `joinProject`, `leaveProject` and `sync`: `none` where reading it throws.
room_payload : Env → Json → Option (String → Json)
room_payload e (obj fields) = members (obj fields)
room_payload e (arr items) = members (arr items)
room_payload e data' = elim (e.parse (key_of e data')) [ none ↦ none | some p ↦ members p ]

-- What `processMessage` is begun with.
pub record SyncStart : Type 0 where
  pub room : Json
  pub sender : Json
  pub notes : Json

-- The state, what was sent, and the sync messages that were begun.
abbrev pub Handled : Type 0
Handled = SyncGateway × Sent × List SyncStart

abbrev handled : SyncGateway × Sent → Option Handled
handled (g, sent) = some (g, sent, [])

-- `data?.ts`
abbrev ts_of : Json → Json
ts_of data' = elim (members data') [ none ↦ undefined | some q ↦ q "ts" ]

-- `handleMessage` for one event; `none` where it throws, which it does before it changes anything.
pub handle_event : ℕ → Env → Event → String → Json → SyncGateway → Option Handled
unfolding room_payload
handle_event later e register client data' g = handled (handle_register_user e client data' g)
handle_event later e shared client data' g = handled (handle_share_project e client data' g)
handle_event later e shared_update client data' g =
    handled (handle_share_project_update e client data' g)
handle_event later e join client data' g = elim (room_payload e data') [
  | none ↦ none
  | some q ↦ handled (join_project e client (q "projectId") (q "userId") g)
]
handle_event later e leave client data' g = elim (room_payload e data') [
  | none ↦ none
  | some q ↦ handled (leave_project e client (q "projectId") (q "userId") g)
]
handle_event later e lock_request client data' g =
    handled (handle_lock_request later e client data' g)
handle_event later e lock_released client data' g =
    handled (handle_lock_released later e client data' g)
handle_event later e sync client data' g = elim (room_payload e data') [
  | none ↦ none
  | some q ↦ some (g, [], record { room = q "room"; sender = q "sender"; notes = q "notes" } ∷ [])
]
handle_event later e ping client data' g = some (
  g,
  send_json e client (
      event_object "pong" (
        field "ts" (nullish_or (ts_of data') (num (pos e.now)))
          (field "serverTs" (num (pos e.now)) end))),
  [],
)
handle_event later e unknown client data' g = some (g, [], [])
handle_event later e (relayed event) client data' g =
    some (g, handle_relay event e client data' g, [])

pub handle_message : ℕ → Env → String → Json → Json → SyncGateway → Option Handled
unfolding event_named handle_event
handle_message later e client event data' g =
    handle_event later e (event_named event) client data' g

invalid_format : String → SyncGateway → Handled
invalid_format client g =
    (g, (client, event_object "error" (field "message" (str "Invalid JSON format") end)) ∷ [], [])

-- A message as it comes from the socket.
pub on_message : ℕ → Env → String → String → SyncGateway → Handled
unfolding handle_message invalid_format
on_message later e client text g = elim (e.parse text) [
  | none ↦ invalid_format client g
  | some message ↦ elim (members message) [
    | none ↦ invalid_format client g
    | some q ↦
        get_or (handle_message later e client (q "event") (q "data") g) (invalid_format client g)
  ]
]

abbrev pub start : SyncGateway
start = record {
  rooms = [];
  user_connections = [];
  client_to_user_id = [];
  pending_messages = [];
  lock_queue = LockQueue.init;
}

-- What happens to the gateway: a message comes, a connection closes, or the timer looks for expired
-- locks.
pub data Happening : Type 0 where
  message : ℕ → Env → String → String → Happening
  close : Env → String → Happening
  tick : ℕ → Happening

pub happen : Happening → SyncGateway → SyncGateway
happen (message later e client text) g = (on_message later e client text g).0
happen (close e client) g = handle_disconnect e client g
happen (tick now) g = record g { lock_queue = cleanup_expired_locks now g.lock_queue }

pub history : List Happening → SyncGateway → SyncGateway
unfolding happen
history [] g = g
history (h ∷ hs) g = history hs (happen h g)

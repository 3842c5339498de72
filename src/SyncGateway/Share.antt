-- ===== src/SyncGateway/Share.antt =====
-- Sharing of projects in src/socket/sync.gateway.ts: the registration of a user, the delivery to a
-- user's connections, and the queue for a user who has none.
pub mod Delivery
pub mod Forward
pub mod Kept
use Prim.Native.String.{◌++◌ as concat}
use starsyncbackend.Prelude.{
  String, Bool, true, false, not, ◌&&◌, ◌||◌, List, [], ◌∷◌, ◌++◌, Option, none, some, ◌==◌,
  if◌then◌else◌, get_or,
}
use starsyncbackend.Prelude.Int.{pos}
use starsyncbackend.Json.{
  Json, undefined, null, bool, num, str, obj, arr, end, field, members, is_truthy, is_nullish,
  value_or, event_object,
}
use starsyncbackend.JsMap
use starsyncbackend.JsSet
use starsyncbackend.SetMap
use starsyncbackend.SyncGateway.{
  SyncGateway, Env, Sent, ShareQueueType, share, update, ShareQueueItem, key_of, payload_of,
  send_json, send_all, send_others,
}

abbrev share_error : Env → String → String → Sent
share_error e client message =
    send_json e client (event_object "shareProjectError" (field "message" (str message) end))

-- `item.type === 'share' ? EVENT_TYPE.SHARE_PROJECT : EVENT_TYPE.SHARE_PROJECT_UPDATE`
abbrev pub event_of : ShareQueueType → String
event_of share = "shareProject"
event_of update = "shareProjectUpdate"

-- The message that `flushQueuedMessages` makes of a queued item.
abbrev pub queued_message : ShareQueueItem → Json
queued_message item =
    event_object (event_of item.type)
      (field "data" item.payload (field "queuedAt" (num (pos item.queued_at)) end))

-- The `while` loop of `flushQueuedMessages`.
pub flush : Env → List String → List ShareQueueItem → Sent
flush e clients [] = []
flush e clients (item ∷ queue) = send_all e (queued_message item) clients ++ flush e clients queue

pub flush_queued_messages : Env → String → SyncGateway → SyncGateway × Sent
unfolding flush
flush_queued_messages e user_id g = elim (get_or (JsMap.get user_id g.pending_messages) []) [
  | [] ↦ (g, [])
  | item ∷ queue ↦
      let clients = get_or (JsMap.get user_id g.user_connections) [] in
      if JsSet.is_empty clients then (g, []) else (
        record g { pending_messages = JsMap.delete user_id g.pending_messages },
        flush e clients (item ∷ queue),
      )
]

-- The user id of a `registerUser` payload: `none` where reading it throws.
abbrev registered_id : Env → Json → Option Json
registered_id e (str s) = elim (e.parse s) [
  | none ↦ none
  | some p ↦ elim (members p) [ none ↦ none | some q ↦ some (q "userId") ]
]
registered_id e data' = elim (members data') [
  | none ↦ some null
  | some q ↦ if is_truthy (q "userId") then some (q "userId") else some null
]

pub register_user : Env → String → Json → SyncGateway → SyncGateway × Sent
register_user e client user g =
    let user_id = key_of e user in
    let g' = record g {
      user_connections = SetMap.add_member user_id client g.user_connections;
      client_to_user_id = JsMap.set client user_id g.client_to_user_id;
    } in
    let (g'', sent) = flush_queued_messages e user_id g' in
    (
      g'',
      send_json e client
            (event_object "registerUser" (field "userId" user (field "status" (str "ok") end)))
          ++ sent,
    )

pub handle_register_user : Env → String → Json → SyncGateway → SyncGateway × Sent
unfolding register_user
handle_register_user e client data' g = elim (registered_id e data') [
  | none ↦ (g, share_error e client "Invalid registerUser payload")
  | some user ↦
      if is_truthy user
      then register_user e client user g
      else (g, share_error e client "Missing userId in registerUser payload")
]

-- The first of the names whose value fails the test.
first_missing : ((Json → Bool)) → (String → Json) → List String → Option String
first_missing missing q [] = none
first_missing missing q (k ∷ ks) = if missing (q k) then some k else first_missing missing q ks

abbrev required_top_level : List String
required_top_level =
    "senderId" ∷ "recipientId" ∷ "recipientUsername" ∷ "projectName" ∷ "projectData" ∷ []

abbrev required_project_data : List String
required_project_data = "version" ∷ "name" ∷ "created" ∷ "modified" ∷ "patterns" ∷ "playlist" ∷ []

-- The properties of a truthy value.
abbrev properties : Json → String → Json
properties v = get_or (members v) (λ k. undefined)

-- The error of `validateSharePayload`, if any.
pub validate_share_payload : Json → Option String
unfolding first_missing
validate_share_payload payload =
    if not (is_truthy payload)
    then some "Missing share payload"
    else elim (first_missing (λ v. not (is_truthy v)) (properties payload) required_top_level) [
      | some k ↦ some (concat "Missing " (concat k " in shareProject payload"))
      | none ↦
          elim (first_missing is_nullish (properties (properties payload "projectData"))
            required_project_data) [
              | some k ↦ some (concat "Missing projectData." (concat k " in shareProject payload"))
              | none ↦ none
            ]
    ]

pub queue_share_message : Env → String → ShareQueueType → Json → SyncGateway → SyncGateway
queue_share_message e recipient type payload g =
    let item : ShareQueueItem = record { type = type; payload = payload; queued_at = e.now } in
    record g {
      pending_messages =
          JsMap.set recipient (get_or (JsMap.get recipient g.pending_messages) [] ++ item ∷ [])
            g.pending_messages;
    }

pub forward_share_event :
    Env → ShareQueueType → String → Json → SyncGateway → SyncGateway × Sent × Bool
unfolding queue_share_message
forward_share_event e type recipient payload g =
    let clients = get_or (JsMap.get recipient g.user_connections) [] in
    elim (send_all e (event_object (event_of type) (field "data" payload end)) clients) [
      | [] ↦ (queue_share_message e recipient type payload g, [], false)
      | s ∷ sent ↦ (g, s ∷ sent, true)
    ]

-- The `try` block of `handleShareProject` behind `JSON.parse`; reading the payload's properties for
-- the log throws first where there is no object.
handle_share_payload : Env → String → Json → SyncGateway → SyncGateway × Sent
handle_share_payload e client payload g = elim (members payload) [
  | none ↦ (g, share_error e client "Invalid shareProject payload")
  | some q ↦ elim (validate_share_payload payload) [
    | some message ↦ (g, share_error e client message)
    | none ↦
        let (g', sent, delivered) =
          forward_share_event e share (key_of e (q "recipientId")) payload g in
        (
          g',
          sent
              ++ send_json e client (
                  event_object "shareProjectAck" (
                    field "recipientId" (q "recipientId") (
                      field "projectName" (q "projectName")
                        (field "delivered" (bool delivered) end)))),
        )
  ]
]

pub handle_share_project : Env → String → Json → SyncGateway → SyncGateway × Sent
unfolding handle_share_payload
handle_share_project e client data' g = elim (payload_of e data') [
  | none ↦ (g, share_error e client "Invalid shareProject payload")
  | some payload ↦ handle_share_payload e client payload g
]

-- `projectData.projectId || projectData.id || null`
abbrev project_of : Json → Json
project_of payload =
    let q = properties (properties payload "projectData") in
    value_or (q "projectId") (value_or (q "id") null)

-- The room of the project, if the payload names a project and it has a room.
abbrev project_room : Env → Json → SyncGateway → Option (List String)
project_room e payload g =
    if is_truthy (project_of payload)
    then JsMap.get (key_of e (project_of payload)) g.rooms
    else none

-- The `try` block of `handleShareProjectUpdate` behind `JSON.parse`.
handle_update_payload : Env → String → Json → SyncGateway → SyncGateway × Sent
handle_update_payload e client payload g = elim (validate_share_payload payload) [
  | some message ↦ (g, share_error e client message)
  | none ↦ elim (project_room e payload g) [
    | some clients ↦ (
      g,
      send_others e client (event_object "shareProjectUpdate" (field "data" payload end)) clients,
    )
    | none ↦
        let (g', sent, delivered) =
          forward_share_event e update (key_of e (properties payload "recipientId")) payload g in
        (g', sent)
  ]
]

pub handle_share_project_update : Env → String → Json → SyncGateway → SyncGateway × Sent
unfolding handle_update_payload
handle_share_project_update e client data' g = elim (payload_of e data') [
  | none ↦ (g, share_error e client "Invalid shareProjectUpdate payload")
  | some payload ↦ handle_update_payload e client payload g
]

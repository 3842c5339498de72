-- ===== src/SyncGateway.antt =====
-- src/socket/sync.gateway.ts: the state of the collaboration gateway and its ways to send. A connection
-- (`WebSocket` object) is named by a text. A handler returns the messages that it sends, in order.
pub mod Relay
pub mod Rooms
pub mod Share
pub mod Notes
pub mod Locks
pub mod Sound
pub mod Messages
mod Examples
use starsyncbackend.Prelude.{
  ℕ, String, Bool, not, ◌&&◌, List, [], ◌∷◌, ◌++◌, Option, none, some, ◌==◌, if◌then◌else◌, ◌≡◌,
  Option-cases, inl, inr,
}
use starsyncbackend.Json.{Json, str, members}
use starsyncbackend.JsMap
use starsyncbackend.LockQueue.{LockQueue}

pub data ShareQueueType : Type 0 where
  share update : ShareQueueType

pub record ShareQueueItem : Type 0 where
  pub type : ShareQueueType
  pub payload : Json
  pub queued_at : ℕ

pub record SyncGateway : Type 0 where
  pub rooms : List (String × List String)
  pub user_connections : List (String × List String)
  pub client_to_user_id : List (String × String)
  pub pending_messages : List (String × List ShareQueueItem)
  pub lock_queue : LockQueue

-- What a handler reads of its surroundings: which connections are open, the clock, `JSON.parse`
-- (`none` where it throws), and the text of a value that is no text, as an object's key.
pub record Env : Type 0 where
  pub is_open : String → Bool
  pub now : ℕ
  pub parse : String → Option Json
  pub to_text : Json → String

abbrev pub Sent : Type 0
Sent = List (String × Json)

abbrev pub key_of : Env → Json → String
key_of e (str s) = s
key_of e v = e.to_text v

-- `typeof data === 'string' ? JSON.parse(data) : data`
unfoldable pub payload_of : Env → Json → Option Json
payload_of e (str s) = e.parse s
payload_of e data' = some data'

-- The body of a `try` block that reads its payload's properties, and a `catch` block.
abbrev pub try_payload {ℓ} : {A : Type ℓ} → Env → Json → A → ((String → Json) → A) → A
try_payload e data' caught body = elim (payload_of e data') [
  | none ↦ caught
  | some p ↦ elim (members p) [ none ↦ caught | some q ↦ body q ]
]

-- What holds of the `catch` block, and of the body at every payload, holds of the whole.
pub try_payload_cases {ℓ κ} :
    {A : Type ℓ} (P : A → Type κ) (e : Env) (data' : Json) (caught : A) (body : (String → Json) → A)
    → P caught
    → ((p : Json) (q : String → Json)
        → payload_of e data' ≡ some p
        → members p ≡ some q
        → P (body q))
    → P (try_payload e data' caught body)
try_payload_cases {A} P e data' caught body failed read = elim (Option-cases (payload_of e data')) [
  | inl n ↦ rw (n, try_payload) failed
  | inr (p, h) ↦ elim (Option-cases (members p)) [
    | inl n ↦ rw (h, try_payload) (rw n failed)
    | inr (q, m) ↦ rw (h, try_payload) (rw m (read p q h m))
  ]
]

-- `sendJson`
unfoldable pub send_json : Env → String → Json → Sent
send_json e client message = if e.is_open client then (client, message) ∷ [] else []

-- The `forEach` over a room that skips the sender.
unfoldable pub send_others : Env → String → Json → List String → Sent
send_others e client message [] = []
send_others e client message (c ∷ cs) =
    if not (c == client) && e.is_open c
    then (c, message) ∷ send_others e client message cs
    else send_others e client message cs

-- The `forEach` over a set of connections that skips none but the closed.
unfoldable pub send_all : Env → Json → List String → Sent
send_all e message [] = []
send_all e message (c ∷ cs) =
    if e.is_open c then (c, message) ∷ send_all e message cs else send_all e message cs

-- `broadcast`
unfoldable pub broadcast : Env → String → Json → SyncGateway → Sent
unfolding send_all
broadcast e room message g = elim (JsMap.get room g.rooms) [
  | none ↦ []
  | some clients ↦ send_all e message clients
]

-- `if (this.rooms[projectId]) { ... }` round the `forEach` over the room.
unfoldable pub relay_room : Env → String → Json → Json → SyncGateway → Sent
unfolding send_others
relay_room e client project message g = elim (JsMap.get (key_of e project) g.rooms) [
  | none ↦ []
  | some clients ↦ send_others e client message clients
]

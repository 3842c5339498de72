-- ===== src/ChatGateway.antt =====
-- src/socket/chat.gateway.ts: rooms and users of the chat. A socket is named by its id. What a handler
-- does with the server of Socket.IO is the list of its calls.
pub mod Delivery
mod Examples
use starsyncbackend.Prelude.{
  ℕ, String, Bool, true, false, ◌||◌, not, List, [], ◌∷◌, ◌++◌, Option, none, some, ◌==◌,
  if◌then◌else◌, get_or, map,
}
use starsyncbackend.Prelude.Int.{pos}
use starsyncbackend.Json.{Json, null, bool, num, str, obj, Fields, end, field, find_field}
use starsyncbackend.JsMap
use starsyncbackend.JsSet
use starsyncbackend.SetMap
use starsyncbackend.Texts.{split}
use starsyncbackend.Effect.{Effect, Result, ok, err, ◌>>=◌}
use starsyncbackend.Entities.{User}
use starsyncbackend.ChatService.{
  ChatMessage, ChatRepositories, ChatDb, save_message, get_message_with_sender, normalize_room,
}

pub record ChatGateway : Type 0 where
  pub rooms : List (String × List String)
  pub user_clients : List (String × List String)
  pub client_users : List (String × String)

unfoldable pub start : ChatGateway
start = record { rooms = []; user_clients = []; client_users = [] }

-- `client.join`, `client.leave`, `server.to(room).emit` and `client.emit`.
pub data SocketCall : Type 0 where
  join leave : String → String → SocketCall
  to_room : String → String → Json → SocketCall
  to_client : String → String → Json → SocketCall

-- The rooms stay when they are empty.
unfoldable pub delete_everywhere :
    String → List (String × List String) → List (String × List String)
delete_everywhere client [] = []
delete_everywhere client ((room, clients) ∷ rooms) =
    (room, JsSet.delete client clients) ∷ delete_everywhere client rooms

unfoldable pub handle_disconnect : String → ChatGateway → ChatGateway
unfolding delete_everywhere
handle_disconnect client g =
    let g' = record g { rooms = delete_everywhere client g.rooms } in
    elim (JsMap.get client g.client_users) [
      | none ↦ g'
      | some user_id ↦ if user_id == "" then g' else record g' {
        client_users = JsMap.delete client g.client_users;
        user_clients = SetMap.remove_member user_id client g.user_clients;
      }
    ]

-- `typeof data === 'object' ? data.userId : data`, for ids that are texts; `none` where the method
-- returns or its `try` block throws.
unfoldable pub user_id_of : Json → Option String
user_id_of (str s) = if s == "" then none else some s
user_id_of (obj fields) = elim (find_field "userId" fields) [
  | str s ↦ if s == "" then none else some s
  | _ ↦ none
]
user_id_of _ = none

unfoldable pub handle_register_user : String → Json → ChatGateway → ChatGateway × List SocketCall
unfolding user_id_of
handle_register_user client data' g = elim (user_id_of data') [
  | none ↦ (g, [])
  | some user_id ↦ (
    record g {
      client_users = JsMap.set client user_id g.client_users;
      user_clients = SetMap.add_member user_id client g.user_clients;
    },
    to_client client "registerChatUserAck"
          (obj (field "status" (str "ok") (field "userId" (str user_id) end)))
        ∷ [],
  )
]

-- `joinRoom` and the end of `joinRoomBetweenUsers`, which differ in what they tell the room.
abbrev join_with : Json → String → String → ChatGateway → ChatGateway × List SocketCall
join_with message client room g = (
  record g { rooms = SetMap.add_member room client g.rooms },
  join client room ∷ to_room room "userJoined" message ∷ [],
)

unfoldable pub handle_join_room : String → String → ChatGateway → ChatGateway × List SocketCall
handle_join_room client room g = join_with (obj (field "clientId" (str client) end)) client room g

-- The room's set, where it is there, loses the client, and stays.
unfoldable pub handle_leave_room : String → String → ChatGateway → ChatGateway × List SocketCall
handle_leave_room client room g = (
  elim (JsMap.get room g.rooms) [
    | none ↦ g
    | some clients ↦ record g { rooms = JsMap.set room (JsSet.delete client clients) g.rooms }
  ],
  leave client room ∷ to_room room "userLeft" (obj (field "clientId" (str client) end)) ∷ [],
)

unfoldable pub handle_join_room_between_users :
    String → String → String → ChatGateway → ChatGateway × List SocketCall
unfolding normalize_room
handle_join_room_between_users client a b g =
    let room = normalize_room a b in
    join_with (obj (field "clientId" (str client) (field "room" (str room) end))) client room g

pub record MessageData : Type 0 where
  pub room : String
  pub sender_id : String
  pub message : String

-- The row of the user as the database returns it, without its date.
unfoldable pub user_object : Option User → Json
user_object none = null
user_object (some u) = obj (
    field "id" (str u.id) (
      field "username" (str u.username) (
        field "password" (str u.password) (
          field "email" (str u.email)
            (field "first_name" (str u.first_name) (field "last_name" (str u.last_name) end))))))

-- `messageData`, with further fields.
unfoldable pub message_data : ChatMessage → Option User → Fields → Json
unfolding user_object
message_data m sender rest = obj (
    field "id" (str m.id) (
      field "room" (str m.room) (
        field "sender_id" (str m.sender_id) (
          field "message" (str m.message) (
            field "created_at" (num (pos m.created_at))
              (field "sender" (user_object sender) rest))))))

-- Whom the two parts of the room's name leave beside the sender.
unfoldable pub recipient_of : String → String → Option String
unfolding split
recipient_of room sender_id = elim (split "_" room) [
  | a ∷ b ∷ [] ↦ some (if a == sender_id then b else a)
  | _ ↦ none
]

-- `newMessageNotification` to each connection of the recipient.
unfoldable pub notify_recipient :
    ChatMessage → Option User → Option String → ChatGateway → List SocketCall
unfolding message_data
notify_recipient m sender none g = []
notify_recipient m sender (some recipient) g =
    map
      (λ client.
        to_client client "newMessageNotification"
          (message_data m sender (field "isDirectNotification" (bool true) end)))
      (get_or (JsMap.get recipient g.user_clients) [])

-- What is sent of a message that was saved.
unfoldable pub announce :
    String → String → ChatMessage × Option User → ChatGateway → List SocketCall
unfolding recipient_of notify_recipient
announce room sender_id (m, sender) g =
    to_room room "newMessage" (message_data m sender end)
    ∷ notify_recipient m sender (recipient_of room sender_id) g

-- What follows the saving and the lookup; whatever throws is caught, and what was saved stays.
abbrev pub after_lookup :
    {S : Type 0}
    → String
    → String
    → ChatGateway
    → Result (Option (ChatMessage × Option User)) × S
    → List SocketCall × S
after_lookup room sender_id g (err x, s) = ([], s)
after_lookup room sender_id g (ok none, s) = ([], s)
after_lookup room sender_id g (ok (some m), s) = (announce room sender_id m g, s)

-- `handleMessage`
unfoldable pub handle_message :
    (c : ChatRepositories)
    → Option MessageData
    → ChatGateway
    → ChatDb c
    → List SocketCall × ChatDb c
unfolding announce
handle_message c none g s = ([], s)
handle_message c (some d) g s =
    if d.room == "" || d.sender_id == "" || d.message == ""
    then ([], s)
    else after_lookup d.room d.sender_id g (
        (save_message c d.room d.sender_id d.message >>= λ saved.
        get_message_with_sender c saved.id)
          s)

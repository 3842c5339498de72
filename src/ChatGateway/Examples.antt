-- ===== src/ChatGateway/Examples.antt =====
-- A run of src/socket/chat.gateway.ts: one user writes to another, who has two connections.
use starsyncbackend.Effect.{ok}
use starsyncbackend.Prelude.{
  ◌==◌, ◌+◌, Bool, true, [], ◌∷◌, Option, some, ◌≡◌, refl, if◌then◌else◌, map,
}
use starsyncbackend.Json.{bool, end, field}
use starsyncbackend.SetMap.{members_of}
use starsyncbackend.Texts.{has_char}
use starsyncbackend.Database.InMemory.{in_memory}
use starsyncbackend.Entities.{User}
use starsyncbackend.Entities.Sample.{user}
use starsyncbackend.ChatService.{ChatMessage, normalize_room, save_message, get_message_with_sender}
use starsyncbackend.ChatService.Sample.{chat_repositories, chat}
use starsyncbackend.ChatGateway.{ChatGateway, to_room, to_client, message_data, handle_message}
use starsyncbackend.ChatGateway.Delivery.{handle_message_lem}

abbrev gateway : ChatGateway
gateway = record {
  rooms = ("alice_bob", "c1" ∷ []) ∷ [];
  user_clients = ("alice", "c1" ∷ []) ∷ ("bob", "c2" ∷ "c3" ∷ []) ∷ [];
  client_users = ("c1", "alice") ∷ ("c2", "bob") ∷ ("c3", "bob") ∷ [];
}

-- The message as it is saved: the database in memory gives every row the same id.
abbrev sent : ChatMessage
sent = record {
  id = "id";
  room = normalize_room "alice" "bob";
  sender_id = "alice";
  message = "hello";
  created_at = 2;
}

handle_message_lem_example :
    let room = normalize_room "alice" "bob" in
    let (calls, after) =
      handle_message chat_repositories
        (some (record { room = room; sender_id = "alice"; message = "hello" }))
        gateway
        chat in
    (row : ChatMessage) × (sender : Option User) × ((row.id ≡ "id")
      × (row.room ≡ room)
      × (row.sender_id ≡ "alice")
      × (row.message ≡ "hello"))
    × (chat_repositories.users.find_one (λ u. u.id == "alice") chat.users ≡ ok sender)
    × (calls
        ≡ to_room room "newMessage" (message_data row sender end)
          ∷ map
              (λ client.
                to_client client "newMessageNotification"
                  (message_data row sender (field "isDirectNotification" (bool true) end)))
              (members_of "bob" gateway.user_clients))
    × ((p : ChatMessage → Bool)
        → chat_repositories.messages.count p after.messages
          ≡ (if p sent then 1 else 0) + chat_repositories.messages.count p chat.messages)
    × ((sent.room ≡ room) × (sent.sender_id ≡ "alice") × (sent.message ≡ "hello"))
unfolding chat chat_repositories in_memory save_message get_message_with_sender has_char
handle_message_lem_example =
    handle_message_lem chat_repositories "alice" "bob" "hello" gateway chat sent
      (some (sent, some (user "alice"))) refl refl refl refl refl refl refl

-- ===== src/ChatController/Examples.antt =====
-- A run of src/socket/chat.controller.ts: numbers are read as 1.
use starsyncbackend.Prelude.{String, true, ◌||◌, ◌==◌, Option, some, ◌≡◌, length}
use starsyncbackend.Prelude.Int.{ℤ, pos}
use starsyncbackend.JsSet
use starsyncbackend.Texts.{split}
use starsyncbackend.ChatService.Sample.{chat_repositories, chat}
use starsyncbackend.ChatController.{
  IsHistory, history_between_users, history_of_room, only_participants,
}

abbrev one : String → Option ℤ
one text = some (pos 1)

only_participants_example :
    (IsHistory chat_repositories one
        (history_between_users chat_repositories one (some "alice") "alice" "bob" "1" "1" chat).0
      → (me : String) × (◌≡◌ {A = Option String} (some "alice") (some me))
        × ((me == "alice" || me == "bob") ≡ true))
    × (IsHistory chat_repositories one
          (history_of_room chat_repositories one (some "alice") "alice_bob" "1" "1" chat).0
        → (me : String) × (◌≡◌ {A = Option String} (some "alice") (some me))
          × (JsSet.has me (split "_" "alice_bob") ≡ true)
          × (length (split "_" "alice_bob") ≡ 2))
only_participants_example =
    only_participants chat_repositories one (some "alice") "alice" "bob" "alice_bob" "1" "1" chat

-- ===== src/ChatService/Examples.antt =====
-- Runs of src/socket/chat.service.ts over a chat of two users.
use starsyncbackend.Prelude.{
  Bool, ◌==◌, ◌&&◌, count, ℕ, suc, ◌+◌, ◌-◌, ◌*◌, take, drop, ◌≤◌, String, List, [], ◌∷◌, some, ◌≡◌,
  refl, arith, length, ltb,
}
use starsyncbackend.Effect.{ok}
use starsyncbackend.JsSet
use starsyncbackend.Database.InMemory.{in_memory}
use starsyncbackend.ChatService.{
  ChatMessage, ChatHistory, get_chat_history, history_of, skip_of, pages_of, mark_messages_as_read,
  mark_from, mark_one, get_read_status, Ordered, desc, equal_ℕ,
}
use starsyncbackend.ChatService.Receipts.{OneReceipt, all_receipts}
use starsyncbackend.ChatService.Invariant.{
  Call, mark, mark_all, mark_room, save, run, run-OneReceipt,
}
use starsyncbackend.ChatService.Status.{mark_then_status}
use starsyncbackend.ChatService.Pages.{first_pages, get_chat_history_lem}
use starsyncbackend.ChatService.Sample.{chat_repositories, chat, message}

abbrev calls : List Call
calls =
    mark "m1" "bob"
    ∷ mark_room "alice_bob" "bob"
    ∷ save "alice_bob" "bob" "hi"
    ∷ mark_all ("m1" ∷ "m2" ∷ []) "bob"
    ∷ []

chat-OneReceipt : OneReceipt chat_repositories chat.receipts
unfolding chat chat_repositories in_memory
chat-OneReceipt = record { once = λ m u. ground arith }

run-OneReceipt_example : OneReceipt chat_repositories (run chat_repositories calls chat).receipts
run-OneReceipt_example = run-OneReceipt chat_repositories calls chat chat-OneReceipt

mark_then_status_example :
    let ids : List String = "m1" ∷ "m2" ∷ [] in
    let s' = (mark_messages_as_read chat_repositories ids "bob" chat).1 in
    ((seen : List String)
      → (get_read_status chat_repositories ids "bob" s').0 ≡ ok seen
      → (id : String) → JsSet.has id seen ≡ JsSet.has id ids)
    × (all_receipts chat_repositories s'.receipts
        ≡ 2 + all_receipts chat_repositories chat.receipts)
    × ((mark_messages_as_read chat_repositories ids "bob" s').1 ≡ s')
    × ((m : ℕ) → (mark_messages_as_read chat_repositories ids "bob" s').0 ≡ ok m → m ≡ 0)
unfolding chat chat_repositories in_memory mark_messages_as_read mark_from mark_one
mark_then_status_example = mark_then_status chat_repositories "bob" ("m1" ∷ "m2" ∷ []) chat 2 refl

abbrev rows : List ChatMessage
rows = message "m2" "again" 2 ∷ message "m1" "hello" 1 ∷ []

-- The answers to each page of one message.
abbrev answer : ℕ → ChatHistory
answer p = history_of (some (suc p)) (some 1) (take 1 (drop ((suc p - 1) * 1) rows), 2)

distinct :
    (time : ℕ)
    → chat_repositories.messages.count
        (λ m. m.room == "alice_bob" && equal_ℕ m.created_at time)
        chat.messages
      ≤ 1
unfolding chat chat_repositories in_memory
distinct time = ground arith

get_chat_history_lem_example :
    let all = first_pages answer (pages_of 2 1) in
    ((p : ℕ)
      → ((answer p).total ≡ 2)
        × ((answer p).total_pages ≡ some (pages_of 2 1))
        × ((answer p).has_more ≡ ltb (suc p) (pages_of 2 1))
        × (length (answer p).messages ≤ 1))
    × ((q : ChatMessage → Bool)
        → count q all
          ≡ chat_repositories.messages.count (λ m. m.room == "alice_bob" && q m) chat.messages)
    × Ordered desc (λ m. m.created_at) all
unfolding chat chat_repositories in_memory get_chat_history skip_of
get_chat_history_lem_example =
    get_chat_history_lem chat_repositories "alice_bob" 1 chat answer (omega arith) distinct
      (λ p. refl)

-- ===== src/ChatService.antt =====
-- src/socket/chat.service.ts: messages of the chat and the receipts of who read them.
pub mod Receipts
pub mod Invariant
pub mod Status
pub mod Pages
pub mod Sample
mod Examples
use Prim.Native.String.{◌++◌ as concat}
use starsyncbackend.Prelude.{
  ℕ, suc, ◌+◌, ◌-◌, ◌*◌, ◌/◌, ◌<◌, String, Bool, true, false, ◌&&◌, List, [], ◌∷◌, Option, none,
  some, ◌==◌, ◌≡◌, if◌then◌else◌, length, take, drop, map, ltb, is_some, count, ◌⊎◌, ◌≤◌, All, not,
}
use starsyncbackend.Effect.{
  Effect, Result, Error, ok, err, ◌>>=◌, ◌>>◌, pure, throw, query, database,
}
use starsyncbackend.Database.{Repository}
use starsyncbackend.Entities.{User}
use starsyncbackend.JsSet
use starsyncbackend.Texts.{precedes}

pub record ChatMessage : Type 0 where
  pub id : String
  pub room : String
  pub sender_id : String
  pub message : String
  pub created_at : ℕ

pub record ChatReadReceipt : Type 0 where
  pub id : String
  pub message_id : String
  pub user_id : String
  pub read_at : ℕ

-- `a === b` of numbers.
abbrev pub equal_ℕ : ℕ → ℕ → Bool
equal_ℕ a b = not (ltb a b) && not (ltb b a)

pub data Direction : Type 0 where
  asc desc : Direction

-- `order: { key: direction }`
abbrev pub InOrder : Direction → ℕ → ℕ → Type 0
InOrder asc a b = a ≤ b
InOrder desc a b = b ≤ a

abbrev pub Ordered : Direction → (ChatMessage → ℕ) → List ChatMessage → Type 0
Ordered d key [] = Unit
Ordered d key (m ∷ ms) = All (λ x. InOrder d (key m) (key x)) ms × Ordered d key ms

-- The repositories, and the queries that a repository's methods do not name. `listing` is what passes
-- a test, in an order; where no two of it have the same key, `find_and_count` skips and takes of it,
-- `none` being `NaN`. `left_join_null` are the messages that pass a test and have no receipt by the
-- condition of the join; the id is the messages' key.
pub record ChatRepositories : Type 1 where
  pub messages : Repository ChatMessage
  pub receipts : Repository ChatReadReceipt
  pub users : Repository User
  pub listing :
      (ChatMessage → Bool) → Direction → (ChatMessage → ℕ) → messages.Table → List ChatMessage
  pub find_and_count :
      (ChatMessage → Bool)
      → Direction
      → (ChatMessage → ℕ)
      → Option ℕ
      → Option ℕ
      → messages.Table
      → Result (List ChatMessage × ℕ)
  pub left_join_null :
      (ChatMessage → Bool)
      → (ChatMessage → ChatReadReceipt → Bool)
      → messages.Table
      → receipts.Table
      → Result (List ChatMessage)
  pub count-listing :
      (p q : ChatMessage → Bool) (d : Direction) (key : ChatMessage → ℕ) (t : messages.Table)
      → count q (listing p d key t) ≡ messages.count (λ m. p m && q m) t
  pub listing-Ordered :
      (p : ChatMessage → Bool) (d : Direction) (key : ChatMessage → ℕ) (t : messages.Table)
      → Ordered d key (listing p d key t)
  pub find_and_count-page :
      (p : ChatMessage → Bool) (d : Direction) (key : ChatMessage → ℕ) (skip limit : ℕ)
      (t : messages.Table) (page : List ChatMessage) (total : ℕ)
      → 0 < limit
      → ((k : ℕ) → messages.count (λ m. p m && equal_ℕ (key m) k) t ≤ 1)
      → find_and_count p d key (some skip) (some limit) t ≡ ok (page, total)
      → (page ≡ take limit (drop skip (listing p d key t))) × (total ≡ messages.count p t)
  pub left_join_null-once :
      (p : ChatMessage → Bool) (on : ChatMessage → ChatReadReceipt → Bool) (t : messages.Table)
      (u : receipts.Table) (rows : List ChatMessage)
      → left_join_null p on t u ≡ ok rows
      → (id : String)
      → (count (λ m. m.id == id) rows ≡ 0)
        ⊎ ((count (λ m. m.id == id) rows ≡ 1)
            × ((m : ChatMessage) × (m.id ≡ id) × (p m ≡ true) × (receipts.count (on m) u ≡ 0)))

pub record ChatDb (c : ChatRepositories) : Type 0 where
  pub messages : c.messages.Table
  pub receipts : c.receipts.Table
  pub users : c.users.Table

-- `normalizeRoom`
unfoldable pub normalize_room : String → String → String
unfolding precedes
normalize_room a b = if precedes a b then concat a (concat "_" b) else concat b (concat "_" a)

pub record ChatHistory : Type 0 where
  pub messages : List ChatMessage
  pub total : ℕ
  pub page : Option ℕ
  pub total_pages : Option ℕ
  pub has_more : Bool

-- `(page - 1) * limit`, where either may be `NaN`; the controller lets no page below 1 pass.
unfoldable pub skip_of : Option ℕ → Option ℕ → Option ℕ
skip_of (some page) (some limit) = some ((page - 1) * limit)
skip_of _ _ = none

-- `Math.ceil(total / limit)`
unfoldable pub pages_of : ℕ → ℕ → ℕ
pages_of total limit = (total + (limit - 1)) / limit

-- The answer that is made of a page; comparing with `NaN` is false.
unfoldable pub history_of : Option ℕ → Option ℕ → List ChatMessage × ℕ → ChatHistory
unfolding skip_of pages_of
history_of page limit (messages, total) = record {
  messages = messages;
  total = total;
  page = page;
  total_pages = elim limit [ none ↦ none | some l ↦ some (pages_of total l) ];
  has_more = elim (skip_of page limit) [
    | none ↦ false
    | some skip ↦ ltb (skip + length messages) total
  ];
}

module _ (c : ChatRepositories) where
  unfoldable pub save_message : String → String → String → Effect (ChatDb c) ChatMessage
  save_message room sender_id message s =
      elim (c.messages.insert
        (λ id at. record {
          id = id;
          room = room;
          sender_id = sender_id;
          message = message;
          created_at = at;
        })
        s.messages) [ ok (t, row) ↦ (ok row, record s { messages = t }) | err x ↦ (err x, s) ]

  -- The message with its sender, who may be missing.
  unfoldable pub get_message_with_sender :
      String → Effect (ChatDb c) (Option (ChatMessage × Option User))
  get_message_with_sender message_id = do
    found ← query (λ s. c.messages.find_one (λ m. m.id == message_id) s.messages)
    elim found [
      | none ↦ pure none
      | some m ↦ do
        sender ← query (λ s. c.users.find_one (λ u. u.id == m.sender_id) s.users)
        pure (some (m, sender))
    ]

  unfoldable pub get_chat_history : String → Option ℕ → Option ℕ → Effect (ChatDb c) ChatHistory
  unfolding history_of skip_of
  get_chat_history room page limit = do
    found ← query (λ s.
        c.find_and_count (λ m. m.room == room) desc (λ m. m.created_at) (skip_of page limit) limit
          s.messages)
    pure (history_of page limit found)

  unfoldable pub get_chat_history_between_users :
      String → String → Option ℕ → Option ℕ → Effect (ChatDb c) ChatHistory
  unfolding get_chat_history normalize_room
  get_chat_history_between_users a b page limit = get_chat_history (normalize_room a b) page limit

  abbrev pub find_receipt : String → String → Effect (ChatDb c) (Option ChatReadReceipt)
  find_receipt message_id user_id = query (λ s.
      c.receipts.find_one (λ r. r.message_id == message_id && r.user_id == user_id) s.receipts)

  -- `create`, for a message and a user.
  abbrev pub new_receipt : String → String → String → ℕ → ChatReadReceipt
  new_receipt message_id user_id id at = record {
    id = id;
    message_id = message_id;
    user_id = user_id;
    read_at = at;
  }

  abbrev pub insert_receipt : String → String → Effect (ChatDb c) ChatReadReceipt
  insert_receipt message_id user_id s =
      elim (c.receipts.insert (new_receipt message_id user_id) s.receipts) [
        | ok (t, row) ↦ (ok row, record s { receipts = t })
        | err x ↦ (err x, s)
      ]

  unfoldable pub mark_message_as_read : String → String → Effect (ChatDb c) ChatReadReceipt
  mark_message_as_read message_id user_id = do
    existing ← find_receipt message_id user_id
    elim existing [ none ↦ insert_receipt message_id user_id | some r ↦ pure r ]

  -- The body of the loop: whether a receipt was added.
  unfoldable pub mark_one : String → String → Effect (ChatDb c) ℕ
  mark_one message_id user_id = do
    existing ← find_receipt message_id user_id
    elim existing [ none ↦ do insert_receipt message_id user_id; pure 1 | some r ↦ pure 0 ]

  -- The loop, from the number of those marked so far.
  unfoldable pub mark_from : ℕ → List String → String → Effect (ChatDb c) ℕ
  unfolding mark_one
  mark_from marked [] user_id = pure marked
  mark_from marked (id ∷ ids) user_id = do
    more ← mark_one id user_id
    mark_from (marked + more) ids user_id

  unfoldable pub mark_messages_as_read : List String → String → Effect (ChatDb c) ℕ
  unfolding mark_from
  mark_messages_as_read ids user_id = mark_from 0 ids user_id

  -- `save` of receipts for many messages, which is one transaction.
  unfoldable pub save_receipts :
      List ChatMessage → String → c.receipts.Table → Result c.receipts.Table
  save_receipts [] user_id t = ok t
  save_receipts (m ∷ ms) user_id t = elim (c.receipts.insert (new_receipt m.id user_id) t) [
    | ok (t', row) ↦ save_receipts ms user_id t'
    | err x ↦ err x
  ]

  unfoldable pub mark_room_as_read : String → String → Effect (ChatDb c) ℕ
  unfolding save_receipts
  mark_room_as_read room user_id s =
      elim (c.left_join_null (λ m. m.room == room && not (m.sender_id == user_id))
        (λ m r. r.message_id == m.id && r.user_id == user_id) s.messages s.receipts) [
          | err x ↦ (err x, s)
          | ok ms ↦ elim (save_receipts ms user_id s.receipts) [
            | err x ↦ (err x, s)
            | ok t ↦ (ok (length ms), record s { receipts = t })
          ]
        ]

  -- `new Set(receipts.map((receipt) => receipt.message_id))`
  unfoldable pub set_of : List ChatReadReceipt → List String → List String
  set_of [] seen = seen
  set_of (r ∷ rs) seen = set_of rs (JsSet.add r.message_id seen)

  unfoldable pub get_read_status : List String → String → Effect (ChatDb c) (List String)
  unfolding set_of
  get_read_status [] user_id = pure []
  get_read_status (id ∷ ids) user_id = do
    rows ← query (λ s.
        c.receipts.find_many (λ r. JsSet.has r.message_id (id ∷ ids) && r.user_id == user_id)
          s.receipts)
    pure (set_of rows [])

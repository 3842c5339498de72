-- ===== src/ChatGateway/Delivery.antt =====
-- Who gets a message of the chat, by src/socket/chat.gateway.ts and src/socket/chat.service.ts.
use Prim.Native.String.{◌++◌ as concat}
use text.Mathlib.TextLemmas.{cons-append, nil-append, append-eq-nil_iff}
use starsyncbackend.Prelude.{
  ℕ, ◌+◌, ◌<◌, String, Bool, true, false, ◌||◌, [], ◌∷◌, Option, some, ◌==◌, ◌≡◌, refl, sym, ap,
  ◌∙◌, if◌then◌else◌, arith, eq_iff, eq_refl, inl, inr, map, differs, Bool-cases, Option-cases,
}
use starsyncbackend.Json.{bool, end, field}
use starsyncbackend.SetMap.{members_of}
use starsyncbackend.Texts.{split, has_char, split-whole, split-concat, precedes, precedes_cases}
use starsyncbackend.Effect.{ok, proceed, Result-cases, ◌>>=◌}
use starsyncbackend.Database.Rows.{only_row}
use starsyncbackend.Entities.{User}
use starsyncbackend.ChatService.{
  ChatMessage, ChatRepositories, ChatDb, save_message, get_message_with_sender, normalize_room,
}
use starsyncbackend.ChatGateway.{
  ChatGateway, to_room, to_client, MessageData, message_data, recipient_of, notify_recipient,
  announce, after_lookup, handle_message,
}

joined : (a b : String) → concat a (concat "_" b) ≡ concat a (String.◌∷◌ "_" b)
joined a b = ap (λ t. concat a t) (cons-append "_" "" b ∙ ap (λ t. String.◌∷◌ "_" t) (nil-append b))

split-room :
    (a b : String)
    → has_char "_" a ≡ false
    → has_char "_" b ≡ false
    → split "_" (concat a (concat "_" b)) ≡ a ∷ b ∷ []
split-room a b ha hb = rw (joined a b, split-concat "_" a b ha, split-whole "_" b hb) refl

-- Of the two users in a room's name the recipient is the one who does not send.
pub recipient_of-normalize_room :
    (a b : String)
    → has_char "_" a ≡ false
    → has_char "_" b ≡ false
    → recipient_of (normalize_room a b) a ≡ some b
unfolding recipient_of normalize_room
recipient_of-normalize_room a b ha hb = elim (precedes_cases a b) [
  | inl (same, ab, ba) ↦ ground (arith, ab, split-room a b ha hb, eq_refl a)
  | inr (inl (ab, ba)) ↦ ground (arith, ab, split-room a b ha hb, eq_refl a)
  | inr (inr (ab, ba)) ↦ ground (arith, ab, split-room b a hb ha, eq_iff b a)
]

room-nonempty : (a b : String) → (normalize_room a b == "") ≡ false
unfolding normalize_room
room-nonempty a b = elim (Bool-cases (precedes a b)) [
  | inl e ↦ rw (e, normalize_room) (nonempty a b)
  | inr e ↦ rw (e, normalize_room) (nonempty b a)
]
  where
    nonempty : (a b : String) → (concat a (concat "_" b) == "") ≡ false
    nonempty a b = elim (Bool-cases (concat a (concat "_" b) == "")) [
      | inr e ↦ e
      | inl e ↦
          let whole = (eq_iff (concat a (concat "_" b)) "").0 e in
          let tail = (append-eq-nil_iff.0 whole).1 in
          absurd (differs "_" "" refl ((append-eq-nil_iff.0 tail).0))
    ]

module _ (c : ChatRepositories) where
  -- A message that is saved is a row more, with the fields that it is given.
  save_message_lem :
      (room sender text : String) (s : ChatDb c) (m : ChatMessage)
      → (save_message c room sender text s).0 ≡ ok m
      → let s' = (save_message c room sender text s).1 in
        ((m.room ≡ room) × (m.sender_id ≡ sender) × (m.message ≡ text))
        × ((p : ChatMessage → Bool)
            → c.messages.count p s'.messages
              ≡ (if p m then 1 else 0) + c.messages.count p s.messages)
  unfolding save_message
  save_message_lem room sender text s m done =
      let row : String → ℕ → ChatMessage = λ id at. record {
        id = id;
        room = room;
        sender_id = sender;
        message = text;
        created_at = at;
      } in
      elim (Result-cases (c.messages.insert row s.messages)) [
        | inr (x, e) ↦ absurd (ground (arith, rw (e, save_message) at done))
        | inl ((t, r), e) ↦
            let same : r ≡ m = ground (arith, rw (e, save_message) at done) in
            let (id, at, made) = c.messages.insert-row row s.messages t r e in
            let made' : m ≡ row id at = sym same ∙ made in
            (
              (
                ap (λ (x : ChatMessage). x.room) made',
                ap (λ (x : ChatMessage). x.sender_id) made',
                ap (λ (x : ChatMessage). x.message) made',
              ),
              λ p.
                  rw (e, save_message)
                    (rw (sym same) (c.messages.count-insert row p s.messages t r e)),
            )
      ]

  -- A lookup that answers finds a message that is there, and changes nothing.
  get_message_with_sender_lem :
      (id : String) (s : ChatDb c) (found : Option (ChatMessage × Option User))
      → (get_message_with_sender c id s).0 ≡ ok found
      → 0 < c.messages.count (λ m. m.id == id) s.messages
      → (row : ChatMessage) × (sender : Option User) × (c.messages.find_one
            (λ m. m.id == id)
            s.messages
          ≡ ok (some row))
        × (c.users.find_one (λ u. u.id == row.sender_id) s.users ≡ ok sender)
        × (get_message_with_sender c id s ≡ (ok (some (row, sender)), s))
  unfolding get_message_with_sender
  get_message_with_sender_lem id s found done there =
      elim (Result-cases (c.messages.find_one (λ m. m.id == id) s.messages)) [
        | inr (x, e) ↦ absurd (ground (arith, rw (e, get_message_with_sender, proceed) at done))
        | inl (o, e) ↦ elim (Option-cases o) [
          | inl n ↦ absurd (
              omega
                (arith, there, c.messages.find_one-none (λ m. m.id == id) s.messages (rw n at e)))
          | inr (row, n) ↦
              let e' : c.messages.find_one (λ m. m.id == id) s.messages ≡ ok (some row) =
                rw n at e in
              elim (Result-cases (c.users.find_one (λ u. u.id == row.sender_id) s.users)) [
                | inr (x, k) ↦
                    absurd
                      (ground (arith, rw k at (rw (e', get_message_with_sender, proceed) at done)))
                | inl (sender, k) ↦
                    (row, sender, e', k, rw (e', get_message_with_sender, proceed) (rw k refl))
              ]
        ]
      ]

announce-normalize_room :
    (a b : String) (row : ChatMessage) (sender : Option User) (g : ChatGateway)
    → has_char "_" a ≡ false
    → has_char "_" b ≡ false
    → announce (normalize_room a b) a (row, sender) g
      ≡ to_room (normalize_room a b) "newMessage" (message_data row sender end)
        ∷ map
            (λ client.
              to_client client "newMessageNotification"
                (message_data row sender (field "isDirectNotification" (bool true) end)))
            (members_of b g.user_clients)
unfolding announce notify_recipient
announce-normalize_room a b row sender g ha hb =
    rw (recipient_of-normalize_room a b ha hb, announce, notify_recipient) refl

handle_message-announce :
    (c : ChatRepositories) (d : MessageData) (g : ChatGateway) (s s' : ChatDb c) (m : ChatMessage)
    (found : ChatMessage × Option User)
    → (d.room == "" || d.sender_id == "" || d.message == "") ≡ false
    → save_message c d.room d.sender_id d.message s ≡ (ok m, s')
    → get_message_with_sender c m.id s' ≡ (ok (some found), s')
    → handle_message c (some d) g s ≡ (announce d.room d.sender_id found g, s')
unfolding handle_message
handle_message-announce c d g s s' m found whole saved looked =
    let both : (save_message c d.room d.sender_id d.message >>= λ saved.
    get_message_with_sender c saved.id)
          s
        ≡ (ok (some found), s') =
      ap (λ p. proceed p.0 (λ x. get_message_with_sender c x.id) p.1) saved ∙ looked in
    rw (whole, handle_message) (ap (λ p. after_lookup d.room d.sender_id g p) both)

-- The message that is found by the id of a saved one has its fields, where the id is new.
found_fields :
    (c : ChatRepositories) (room sender text : String) (s : ChatDb c) (m row : ChatMessage)
    → (save_message c room sender text s).0 ≡ ok m
    → c.messages.count (λ x. x.id == m.id) s.messages ≡ 0
    → c.messages.find_one (λ x. x.id == m.id) (save_message c room sender text s).1.messages
      ≡ ok (some row)
    → (row.id ≡ m.id) × (row.room ≡ room) × (row.sender_id ≡ sender) × (row.message ≡ text)
unfolding save_message
found_fields c room sender text s m row saved fresh is_found =
    let new : String → ℕ → ChatMessage = λ id at. record {
      id = id;
      room = room;
      sender_id = sender;
      message = text;
      created_at = at;
    } in
    elim (Result-cases (c.messages.insert new s.messages)) [
      | inr (x, e) ↦ absurd (ground (arith, rw (e, save_message) at saved))
      | inl ((t, w), e) ↦
          let same : w ≡ m = ground (arith, rw (e, save_message) at saved) in
          let (id, at, made) = c.messages.insert-row new s.messages t w e in
          let looked : c.messages.find_one (λ x. x.id == m.id) t ≡ ok (some row) =
            rw (e, save_message) at is_found in
          let alike : (q : ChatMessage → Bool) → q w ≡ true → q row ≡ true = λ q h.
            only_row c.messages new (λ x. x.id == m.id) q s.messages t w row fresh e h looked in
          (
            (eq_iff row.id m.id).0 (c.messages.find_one-some (λ x. x.id == m.id) t row looked).0,
            (eq_iff row.room room).0 (
                alike (λ x. x.room == room)
                  (ap (λ (x : ChatMessage). x.room == room) made ∙ eq_refl room)),
            (eq_iff row.sender_id sender).0 (
                alike (λ x. x.sender_id == sender)
                  (ap (λ (x : ChatMessage). x.sender_id == sender) made ∙ eq_refl sender)),
            (eq_iff row.message text).0 (
                alike (λ x. x.message == text)
                  (ap (λ (x : ChatMessage). x.message == text) made ∙ eq_refl text)),
          )
    ]

save_message-users :
    (c : ChatRepositories) (room sender text : String) (s : ChatDb c)
    → (save_message c room sender text s).1.users ≡ s.users
unfolding save_message
save_message-users c room sender text s = ground arith

-- When a user writes a text that is not empty in the room of two users whose ids have no
-- underscore, the database answers, and the saved message's id is new: the message is saved, as one
-- row more with the room, the sender and the text; the room gets it, with its id, its room, its
-- text, and as its sender the user who is found by the id of the one who writes; and every
-- connection that is registered for the other user, and no other, gets one direct notification of
-- it.
pub handle_message_lem :
    (c : ChatRepositories) (a b text : String) (g : ChatGateway) (s : ChatDb c) (m : ChatMessage)
    (found : Option (ChatMessage × Option User))
    → has_char "_" a ≡ false
    → has_char "_" b ≡ false
    → ((a == "") ≡ false)
    → ((text == "") ≡ false)
    → let room = normalize_room a b in
      let (saved, s') = save_message c room a text s in
      saved ≡ ok m
      → c.messages.count (λ x. x.id == m.id) s.messages ≡ 0
      → (get_message_with_sender c m.id s').0 ≡ ok found
      → let (calls, after) =
          handle_message c (some (record { room = room; sender_id = a; message = text })) g s in
        (row : ChatMessage) × (sender : Option User) × ((row.id ≡ m.id)
          × (row.room ≡ room)
          × (row.sender_id ≡ a)
          × (row.message ≡ text))
        × (c.users.find_one (λ u. u.id == a) s.users ≡ ok sender)
        × (calls
            ≡ to_room room "newMessage" (message_data row sender end)
              ∷ map
                  (λ client.
                    to_client client "newMessageNotification"
                      (message_data row sender (field "isDirectNotification" (bool true) end)))
                  (members_of b g.user_clients))
        × ((p : ChatMessage → Bool)
            → c.messages.count p after.messages
              ≡ (if p m then 1 else 0) + c.messages.count p s.messages)
        × ((m.room ≡ room) × (m.sender_id ≡ a) × (m.message ≡ text))
unfolding handle_message
handle_message_lem c a b text g s m found ha hb na nt saved fresh looked =
    let room = normalize_room a b in
    let s' = (save_message c room a text s).1 in
    let (fields, counts) = save_message_lem c room a text s m saved in
    let there : 0 < c.messages.count (λ x. x.id == m.id) s'.messages =
      ground (arith, counts (λ x. x.id == m.id), eq_refl m.id) in
    let (row, sender, is_row, is_sender, whole) =
      get_message_with_sender_lem c m.id s' found looked there in
    let shown = found_fields c room a text s m row saved fresh is_row in
    let written_by : c.users.find_one (λ u. u.id == a) s.users ≡ ok sender =
      ap (λ t. c.users.find_one (λ u. u.id == a) t) (sym (save_message-users c room a text s))
      ∙ ap (λ i. c.users.find_one (λ u. u.id == i) s'.users) (sym shown.2)
      ∙ is_sender in
    let d : MessageData = record { room = room; sender_id = a; message = text } in
    let handled =
      handle_message-announce c d g s s' m (row, sender) (ground (arith, room-nonempty a b, na, nt))
        (pair_of saved) whole in
    rw handled (
      row,
      sender,
      shown,
      written_by,
      announce-normalize_room a b row sender g ha hb,
      counts,
      fields,
    )
  where
    pair_of : {A B : Type 0} {p : A × B} {x : A} → p.0 ≡ x → p ≡ (x, p.1)
    pair_of e = rw e refl

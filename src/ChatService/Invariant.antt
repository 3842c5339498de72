-- ===== src/ChatService/Invariant.antt =====
-- What the methods of src/socket/chat.service.ts keep of the receipts.
use starsyncbackend.Prelude.{
  Bool, ap, ◌∙◌, sym, not, ◌&&◌, String, List, [], ◌∷◌, Option, none, some, ◌==◌, ◌≡◌, refl, ◌⊎◌,
  arith, eq_iff, eq_refl, inl, inr, count, subst,
}
use starsyncbackend.Effect.{Result, ok, err, proceed, Result-cases}
use starsyncbackend.ChatService.{
  ChatMessage, ChatReadReceipt, ChatRepositories, ChatDb, save_message, mark_message_as_read,
  mark_one, mark_messages_as_read, save_receipts, mark_room_as_read, new_receipt, insert_receipt,
}
use starsyncbackend.ChatService.Receipts.{
  OneReceipt, receipts_of, read_by, insert-AddsOne, AddsOne-OneReceipt, mark_one-OneReceipt,
  mark_from-OneReceipt,
}

pub data Call : Type 0 where
  save : String → String → String → Call
  mark : String → String → Call
  mark_all : List String → String → Call
  mark_room : String → String → Call

module _ (c : ChatRepositories) where
  mark_message_as_read-state :
      (id user : String) (s : ChatDb c)
      → (mark_message_as_read c id user s).1 ≡ (mark_one c id user s).1
  unfolding mark_message_as_read mark_one
  mark_message_as_read-state id user s =
      found (c.receipts.find_one (read_by id user) s.receipts) refl
    where
      inserted :
          (i : Result (c.receipts.Table × ChatReadReceipt))
          → c.receipts.insert (new_receipt c id user) s.receipts ≡ i
          → c.receipts.find_one (read_by id user) s.receipts ≡ ok none
          → (mark_message_as_read c id user s).1 ≡ (mark_one c id user s).1
      inserted (err x) h e =
          rw (e, mark_message_as_read, mark_one, proceed) (rw (h, insert_receipt) refl)
      inserted (ok (t, row)) h e =
          rw (e, mark_message_as_read, mark_one, proceed) (rw (h, insert_receipt) refl)

      found :
          (f : Result (Option ChatReadReceipt))
          → c.receipts.find_one (read_by id user) s.receipts ≡ f
          → (mark_message_as_read c id user s).1 ≡ (mark_one c id user s).1
      found (err x) e = rw (e, mark_message_as_read, mark_one) refl
      found (ok (some r)) e = rw (e, mark_message_as_read, mark_one) refl
      found (ok none) e = inserted (c.receipts.insert (new_receipt c id user) s.receipts) refl e

  -- Each of the messages once, and without a receipt of the user.
  Fresh : String → List ChatMessage → c.receipts.Table → Type 0
  Fresh user ms t =
      (id : String)
      → (count (λ m. m.id == id) ms ≡ 0)
        ⊎ ((count (λ m. m.id == id) ms ≡ 1) × (receipts_of c id user t ≡ 0))

  save_receipts-OneReceipt :
      (ms : List ChatMessage) (user : String) (t t' : c.receipts.Table)
      → Fresh user ms t
      → save_receipts c ms user t ≡ ok t'
      → OneReceipt c t
      → OneReceipt c t'
  unfolding save_receipts Fresh
  save_receipts-OneReceipt [] user t t' fresh e o =
      subst (λ t. OneReceipt c t) (ground (arith, e)) o
  save_receipts-OneReceipt (m ∷ ms) user t t' fresh e o =
      elim (Result-cases (c.receipts.insert (new_receipt c m.id user) t)) [
        | inr (x, h) ↦ absurd (ground (arith, rw (h, save_receipts) at e))
        | inl ((u, row), h) ↦
            let adds = insert-AddsOne c m.id user t u row h in
            let rest : save_receipts c ms user u ≡ ok t' = rw (h, save_receipts) at e in
            save_receipts-OneReceipt ms user u t'
              (λ id. ground (arith, fresh id, adds.0 id user, eq_iff m.id id, eq_refl user)) rest
              (AddsOne-OneReceipt c m.id user t u (ground (arith, fresh m.id, eq_refl m.id)) adds o)
      ]

  -- The messages of a room that a user has not sent, and the receipts of the user for a message.
  abbrev of_others : String → String → ChatMessage → Bool
  of_others room user m = m.room == room && not (m.sender_id == user)

  abbrev read_as : String → ChatMessage → ChatReadReceipt → Bool
  read_as user m r = r.message_id == m.id && r.user_id == user

  unread-Fresh :
      (room user : String) (s : ChatDb c) (ms : List ChatMessage)
      → c.left_join_null (of_others room user) (read_as user) s.messages s.receipts ≡ ok ms
      → Fresh user ms s.receipts
  unfolding Fresh
  unread-Fresh room user s ms e id =
      elim (c.left_join_null-once (of_others room user) (read_as user) s.messages s.receipts ms e
        id) [
          | inl nowhere ↦ inl nowhere
          | inr (one, (m, same, chosen, unread)) ↦ inr (
            one,
            ap (λ i. c.receipts.count (λ r. r.message_id == i && r.user_id == user) s.receipts)
                  (sym same)
                ∙ unread,
          )
        ]

  mark_room_as_read-OneReceipt :
      (room user : String) (s : ChatDb c)
      → OneReceipt c s.receipts
      → OneReceipt c (mark_room_as_read c room user s).1.receipts
  unfolding mark_room_as_read Fresh
  mark_room_as_read-OneReceipt room user s o =
      found (c.left_join_null (of_others room user) (read_as user) s.messages s.receipts) refl
    where
      saved :
          (ms : List ChatMessage) (r : Result c.receipts.Table)
          → c.left_join_null (of_others room user) (read_as user) s.messages s.receipts ≡ ok ms
          → save_receipts c ms user s.receipts ≡ r
          → OneReceipt c (mark_room_as_read c room user s).1.receipts
      saved ms (err x) e h = rw (e, mark_room_as_read) (rw h o)
      saved ms (ok t) e h =
          rw (e, mark_room_as_read)
            (rw h
              (save_receipts-OneReceipt ms user s.receipts t (unread-Fresh room user s ms e) h o))

      found :
          (f : Result (List ChatMessage))
          → c.left_join_null (of_others room user) (read_as user) s.messages s.receipts ≡ f
          → OneReceipt c (mark_room_as_read c room user s).1.receipts
      found (err x) e = rw (e, mark_room_as_read) o
      found (ok ms) e = saved ms (save_receipts c ms user s.receipts) e refl

  pub step : Call → ChatDb c → ChatDb c
  step (save room sender message) s = (save_message c room sender message s).1
  step (mark id user) s = (mark_message_as_read c id user s).1
  step (mark_all ids user) s = (mark_messages_as_read c ids user s).1
  step (mark_room room user) s = (mark_room_as_read c room user s).1

  pub run : List Call → ChatDb c → ChatDb c
  unfolding step
  run [] s = s
  run (call ∷ calls) s = run calls (step call s)

  save_message-receipts :
      (room sender message : String) (s : ChatDb c)
      → (save_message c room sender message s).1.receipts ≡ s.receipts
  unfolding save_message
  save_message-receipts room sender message s = ground arith

  -- From a state in which each user has at most one receipt for each message, every history of
  -- calls that save messages and mark a message, a list of messages or a room as read, each run to
  -- its end, leads to such a state, also where a call of the database fails half-way.
  pub run-OneReceipt :
      (calls : List Call) (s : ChatDb c)
      → OneReceipt c s.receipts
      → OneReceipt c (run calls s).receipts
  unfolding run step mark_messages_as_read
  run-OneReceipt [] s o = o
  run-OneReceipt (save room sender message ∷ calls) s o =
      run-OneReceipt calls _ (rw (save_message-receipts room sender message s) o)
  run-OneReceipt (mark id user ∷ calls) s o =
      run-OneReceipt calls _
        (rw (mark_message_as_read-state id user s) (mark_one-OneReceipt c id user s o))
  run-OneReceipt (mark_all ids user ∷ calls) s o =
      run-OneReceipt calls _ (mark_from-OneReceipt c 0 ids user s o)
  run-OneReceipt (mark_room room user ∷ calls) s o =
      run-OneReceipt calls _ (mark_room_as_read-OneReceipt room user s o)

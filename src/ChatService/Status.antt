-- ===== src/ChatService/Status.antt =====
-- Marking messages as read and asking for the status afterwards, in src/socket/chat.service.ts.
use starsyncbackend.Prelude.{
  ℕ, ◌+◌, ◌≤◌, ◌<◌, String, true, ◌&&◌, ◌||◌, List, [], ◌∷◌, ◌==◌, ◌≡◌, refl, if◌then◌else◌, arith,
  eq_iff, eq_refl, inl, inr, count, Bool-cases, ltb, sym,
}
use starsyncbackend.Effect.{ok, proceed, Result-cases}
use starsyncbackend.Effect.Keeps.{bind_ok}
use starsyncbackend.JsSet
use starsyncbackend.JsSet.{has-add, has-is_empty}
use starsyncbackend.ChatService.{
  ChatReadReceipt, ChatRepositories, ChatDb, mark_one, mark_from, mark_messages_as_read,
  get_read_status, set_of,
}
use starsyncbackend.ChatService.Receipts.{receipts_of, all_receipts, mark_one_cases, read_by}

has-set_of :
    (id : String) (rows : List ChatReadReceipt) (seen : List String) (c : ChatRepositories)
    → JsSet.has id (set_of c rows seen)
      ≡ (JsSet.has id seen || ltb 0 (count (λ r. r.message_id == id) rows))
unfolding set_of
has-set_of id [] seen c = ground arith
has-set_of id (r ∷ rs) seen c = ground (
  arith,
  has-set_of id rs (JsSet.add r.message_id seen) c,
  has-add r.message_id id seen,
  eq_iff r.message_id id,
)

module _ (c : ChatRepositories) (user : String) where
  -- Every message of the list has a receipt of the user.
  abbrev AllRead : List String → c.receipts.Table → Type 0
  AllRead ids t = (id : String) → JsSet.has id ids ≡ true → 0 < receipts_of c id user t

  -- When the loop returns: no receipt has gone, every message of the list has one, and the answer
  -- counts those that were added.
  Marked : ℕ → List String → ChatDb c → ℕ → ChatDb c → Type 0
  Marked marked ids s n s' =
      ((m : String) → receipts_of c m user s.receipts ≤ receipts_of c m user s'.receipts)
      × AllRead ids s'.receipts
      × (all_receipts c s'.receipts + marked ≡ n + all_receipts c s.receipts)

  mark_one-Marked :
      (id : String) (s : ChatDb c) (n : ℕ)
      → (mark_one c id user s).0 ≡ ok n
      → Marked 0 (id ∷ []) s n (mark_one c id user s).1
  unfolding Marked JsSet.has
  mark_one-Marked id s n done = elim (mark_one_cases c id user s) [
    | inl (x, e, same) ↦ absurd (ground (arith, e, done))
    | inr (inl (e, same, there)) ↦
        rw same
          (λ m. omega arith, λ i h. ground (arith, there, h, eq_iff id i), ground (arith, e, done))
    | inr (inr (e, none_yet, adds)) ↦ (
      λ m. ground (arith, adds.0 m user),
      λ i h. ground (arith, h, eq_iff id i, adds.0 id user, eq_refl id, eq_refl user),
      ground (arith, e, done, adds.1),
    )
  ]

  mark_from-Marked :
      (marked : ℕ) (ids : List String) (s : ChatDb c) (n : ℕ)
      → (mark_from c marked ids user s).0 ≡ ok n
      → Marked marked ids s n (mark_from c marked ids user s).1
  unfolding Marked mark_from JsSet.has
  mark_from-Marked marked [] s n done =
      (λ m. omega arith, λ i h. ground (arith, h), ground (arith, done))
  mark_from-Marked marked (id ∷ ids) s n done =
      let (k, first, same) = bind_ok (mark_one c id user) _ s n done in
      let done1 = rw same at done in
      let one = mark_one-Marked id s k first in
      let rest = mark_from-Marked (marked + k) ids _ n done1 in
      rw same (
        λ m. omega (arith, one.0 m, rest.0 m),
        λ i h. ground (arith, h, eq_iff id i, one.1 id, eq_refl id, rest.0 id, rest.1 i),
        omega (arith, one.2, rest.2),
      )

  -- Where all are read already, the loop changes nothing.
  mark_from_again :
      (marked : ℕ) (ids : List String) (s : ChatDb c)
      → AllRead ids s.receipts
      → ((mark_from c marked ids user s).1 ≡ s)
        × ((n : ℕ) → (mark_from c marked ids user s).0 ≡ ok n → n ≡ marked)
  unfolding mark_from JsSet.has
  mark_from_again marked [] s h = (refl, λ n e. ground (arith, e))
  mark_from_again marked (id ∷ ids) s h =
      let there : 0 < receipts_of c id user s.receipts = h id (rw (eq_refl id) refl) in
      elim (mark_one_cases c id user s) [
        | inl (x, e, same) ↦ rw (e, proceed) (same, λ n k. ground (arith, k))
        | inr (inl (e, same, _)) ↦
            rw (e, proceed)
              (rw same (
                let rest = mark_from_again (marked + 0) ids s (λ i k. h i (ground (arith, k))) in
                (rest.0, λ n k. ground (arith, rest.1 n k))))
        | inr (inr (e, none_yet, adds)) ↦ absurd (omega (arith, there, none_yet))
      ]

  -- The rows of a list's messages and the user, counted for one message.
  asked-count :
      (ids : List String) (id : String) (t : c.receipts.Table)
      → c.receipts.count
          (λ r. (JsSet.has r.message_id ids && r.user_id == user) && r.message_id == id)
          t
        ≡ (if JsSet.has id ids then receipts_of c id user t else 0)
  asked-count ids id t = elim (Bool-cases (JsSet.has id ids)) [
    | inl h ↦
        let less =
          c.receipts.count_mono
            (λ r. (JsSet.has r.message_id ids && r.user_id == user) && r.message_id == id)
            (read_by id user) t (λ r k. ground (arith, k)) in
        let more =
          c.receipts.count_mono (read_by id user)
            (λ r. (JsSet.has r.message_id ids && r.user_id == user) && r.message_id == id) t
            (λ r k. ground (arith, k, h, eq_iff r.message_id id)) in
        rw h (omega (arith, less, more))
    | inr h ↦ rw h (
        c.receipts.count-never
          (λ r. (JsSet.has r.message_id ids && r.user_id == user) && r.message_id == id) t
          (λ r. ground (arith, h, eq_iff r.message_id id)))
  ]

  -- The answer of the status, when its query answers: those of the messages with a receipt.
  pub get_read_status_lem :
      (ids : List String) (s : ChatDb c) (seen : List String)
      → (get_read_status c ids user s).0 ≡ ok seen
      → (id : String)
      → JsSet.has id seen ≡ (JsSet.has id ids && ltb 0 (receipts_of c id user s.receipts))
  unfolding get_read_status
  get_read_status_lem [] s seen done id =
      let none_seen : [] ≡ seen = ground (arith, done) in
      rw (sym none_seen) (ground (arith, has-is_empty id [] refl))
  get_read_status_lem (i ∷ ids) s seen done id =
      let p = λ (r : ChatReadReceipt). JsSet.has r.message_id (i ∷ ids) && r.user_id == user in
      elim (Result-cases (c.receipts.find_many p s.receipts)) [
        | inr (x, e) ↦ absurd (ground (arith, rw (e, get_read_status, proceed) at done))
        | inl (rows, e) ↦
            let known : set_of c rows [] ≡ seen =
              ground (arith, rw (e, get_read_status, proceed) at done) in
            rw (sym known) (
              ground (
                arith,
                has-set_of id rows [] c,
                has-is_empty id [] refl,
                c.receipts.count-find_many p (λ r. r.message_id == id) s.receipts rows e,
                asked-count (i ∷ ids) id s.receipts,
              ))
      ]

  -- When marking a list of messages as read returns, the answer counts the receipts that were
  -- added; the read status, when it is asked for afterwards and answers, has of the list's messages
  -- every one and has no others; and marking the list again changes nothing, and returns, if it
  -- does, zero.
  pub mark_then_status :
      (ids : List String) (s : ChatDb c) (n : ℕ)
      → (mark_messages_as_read c ids user s).0 ≡ ok n
      → let s' = (mark_messages_as_read c ids user s).1 in
        ((seen : List String)
          → (get_read_status c ids user s').0 ≡ ok seen
          → (id : String) → JsSet.has id seen ≡ JsSet.has id ids)
        × (all_receipts c s'.receipts ≡ n + all_receipts c s.receipts)
        × ((mark_messages_as_read c ids user s').1 ≡ s')
        × ((m : ℕ) → (mark_messages_as_read c ids user s').0 ≡ ok m → m ≡ 0)
  unfolding mark_messages_as_read Marked
  mark_then_status ids s n done =
      let s' = (mark_messages_as_read c ids user s).1 in
      let (kept, read, counted) = mark_from-Marked 0 ids s n done in
      let again = mark_from_again 0 ids s' read in
      (
        λ seen e id. ground (arith, get_read_status_lem ids s' seen e id, read id),
        omega (arith, counted),
        again.0,
        again.1,
      )

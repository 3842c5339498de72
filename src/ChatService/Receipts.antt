-- ===== src/ChatService/Receipts.antt =====
-- How the methods of src/socket/chat.service.ts add receipts: at most one for a message and a user.
use starsyncbackend.Prelude.{
  ℕ, suc, ◌+◌, ◌≤◌, ◌<◌, String, Bool, true, ◌&&◌, List, [], ◌∷◌, Option, none, some, ◌==◌, ◌≡◌,
  refl, ◌⊎◌, if◌then◌else◌, arith, eq_iff, inl, inr,
}
use starsyncbackend.Effect.{Result, Error, ok, err, proceed}
use starsyncbackend.Effect.Keeps.{bind_keeps}
use starsyncbackend.ChatService.{
  ChatReadReceipt, ChatRepositories, ChatDb, mark_one, mark_from, new_receipt, insert_receipt,
}

-- The receipt is for this message and user.
abbrev pub read_by : String → String → ChatReadReceipt → Bool
read_by m u r = r.message_id == m && r.user_id == u

module _ (c : ChatRepositories) where
  -- How many receipts there are for the message and the user.
  abbrev pub receipts_of : String → String → c.receipts.Table → ℕ
  receipts_of m u t = c.receipts.count (read_by m u) t

  pub record OneReceipt (t : c.receipts.Table) : Type 0 where
    pub once : (m u : String) → receipts_of m u t ≤ 1

  pub receipts_of-insert :
      (id user : String) (t t' : c.receipts.Table) (row : ChatReadReceipt)
      → c.receipts.insert (new_receipt c id user) t ≡ ok (t', row)
      → (m u : String)
      → receipts_of m u t' ≡ (if id == m && user == u then 1 else 0) + receipts_of m u t
  receipts_of-insert id user t t' row h m u =
      let (i, at, same) = c.receipts.insert-row (new_receipt c id user) t t' row h in
      ground (arith, c.receipts.count-insert (new_receipt c id user) (read_by m u) t t' row h, same)

  -- How many receipts there are.
  abbrev pub all_receipts : c.receipts.Table → ℕ
  all_receipts t = c.receipts.count (λ r. true) t

  -- One receipt more, for this message and user.
  abbrev pub AddsOne : String → String → c.receipts.Table → c.receipts.Table → Type 0
  AddsOne id user t t' =
      ((m u : String)
        → receipts_of m u t' ≡ (if id == m && user == u then 1 else 0) + receipts_of m u t)
      × (all_receipts t' ≡ suc (all_receipts t))

  pub insert-AddsOne :
      (id user : String) (t t' : c.receipts.Table) (row : ChatReadReceipt)
      → c.receipts.insert (new_receipt c id user) t ≡ ok (t', row)
      → AddsOne id user t t'
  insert-AddsOne id user t t' row h = (
    receipts_of-insert id user t t' row h,
    ground (arith, c.receipts.count-insert (new_receipt c id user) (λ r. true) t t' row h),
  )

  -- The body of the loop fails and changes nothing, or finds a receipt and changes nothing, or finds
  -- none and adds one.
  pub mark_one_cases :
      (id user : String) (s : ChatDb c)
      → let (r, s') = mark_one c id user s in
        ((x : Error) × (r ≡ err x) × (s' ≡ s))
        ⊎ ((r ≡ ok 0) × (s' ≡ s) × (0 < receipts_of id user s.receipts))
        ⊎ ((r ≡ ok 1)
            × (receipts_of id user s.receipts ≡ 0)
            × AddsOne id user s.receipts s'.receipts)
  unfolding mark_one
  mark_one_cases id user s = found (c.receipts.find_one (read_by id user) s.receipts) refl
    where
      Goal : Type 0
      Goal =
          let (r, s') = mark_one c id user s in
          ((x : Error) × (r ≡ err x) × (s' ≡ s))
          ⊎ ((r ≡ ok 0) × (s' ≡ s) × (0 < receipts_of id user s.receipts))
          ⊎ ((r ≡ ok 1)
              × (receipts_of id user s.receipts ≡ 0)
              × AddsOne id user s.receipts s'.receipts)

      inserted :
          (i : Result (c.receipts.Table × ChatReadReceipt))
          → c.receipts.insert (new_receipt c id user) s.receipts ≡ i
          → c.receipts.find_one (read_by id user) s.receipts ≡ ok none
          → Goal
      inserted (err x) h e = inl (
        x,
        rw (e, mark_one, proceed) (rw (h, insert_receipt) refl),
        rw (e, mark_one, proceed) (rw (h, insert_receipt) refl),
      )
      inserted (ok (t, row)) h e = inr (
          inr (
            rw (e, mark_one, proceed) (rw (h, insert_receipt) refl),
            c.receipts.find_one-none (read_by id user) s.receipts e,
            rw (e, mark_one, proceed)
                (rw (h, insert_receipt) (insert-AddsOne id user s.receipts t row h)),
          ))

      found :
          (f : Result (Option ChatReadReceipt))
          → c.receipts.find_one (read_by id user) s.receipts ≡ f
          → Goal
      found (err x) e = inl (x, rw (e, mark_one) refl, rw (e, mark_one) refl)
      found (ok (some r)) e =
          let (here, counts) = c.receipts.find_one-some (read_by id user) s.receipts r e in
          inr (inl (rw (e, mark_one) refl, rw (e, mark_one) refl, counts (read_by id user) here))
      found (ok none) e = inserted (c.receipts.insert (new_receipt c id user) s.receipts) refl e

  pub AddsOne-OneReceipt :
      (id user : String) (t t' : c.receipts.Table)
      → receipts_of id user t ≡ 0
      → AddsOne id user t t'
      → OneReceipt t
      → OneReceipt t'
  AddsOne-OneReceipt id user t t' none_yet adds o = record {
    once = λ m u. ground (arith, adds.0 m u, o.once m u, none_yet, eq_iff id m, eq_iff user u);
  }

  pub mark_one-OneReceipt :
      (id user : String) (s : ChatDb c)
      → OneReceipt s.receipts
      → OneReceipt (mark_one c id user s).1.receipts
  mark_one-OneReceipt id user s o = elim (mark_one_cases id user s) [
    | inl (x, e, same) ↦ rw same o
    | inr (inl (e, same, there)) ↦ rw same o
    | inr (inr (e, none_yet, adds)) ↦
        AddsOne-OneReceipt id user s.receipts (mark_one c id user s).1.receipts none_yet adds o
  ]

  pub mark_from-OneReceipt :
      (marked : ℕ) (ids : List String) (user : String) (s : ChatDb c)
      → OneReceipt s.receipts
      → OneReceipt (mark_from c marked ids user s).1.receipts
  unfolding mark_from
  mark_from-OneReceipt marked [] user s o = o
  mark_from-OneReceipt marked (id ∷ ids) user s o =
      bind_keeps (λ s'. OneReceipt s'.receipts) (mark_one c id user) _ s
        (mark_one-OneReceipt id user s o)
        λ n e. mark_from-OneReceipt (marked + n) ids user _ (mark_one-OneReceipt id user s o)

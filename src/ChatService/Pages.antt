-- ===== src/ChatService/Pages.antt =====
-- The pages of the history in src/socket/chat.service.ts, and the names of rooms.
use native.Mathlib.Nat.{le-div_iff_mul-le, suc-mul, zero-mul}
use starsyncbackend.Prelude.{
  Bool, true, ◌&&◌, ◌==◌, count, ℕ, zero, suc, ◌+◌, ◌-◌, ◌*◌, ◌/◌, ◌≤◌, ◌<◌, String, List, [], ◌∷◌,
  ◌++◌, some, ◌≡◌, refl, arith, inl, inr, length, length-take, take-all, take, drop, ltb,
  length-drop, sym, ap, ◌↔◌, ◌∙◌, subst,
}
use starsyncbackend.Effect.{ok, proceed, Result-cases}
use starsyncbackend.Texts.{precedes_cases}
use starsyncbackend.ChatService.{
  ChatMessage, ChatRepositories, ChatDb, ChatHistory, skip_of, pages_of, history_of,
  get_chat_history, normalize_room, Ordered, desc, equal_ℕ,
}

take-nil {ℓ} : {A : Type ℓ} (n : ℕ) → take {A = A} n [] ≡ []
take-nil zero = refl
take-nil (suc n) = refl

take-add {ℓ} :
    {A : Type ℓ} (m n : ℕ) (xs : List A) → take (m + n) xs ≡ take m xs ++ take n (drop m xs)
take-add zero n xs = ap (λ k. take k xs) (omega arith)
take-add (suc m) n [] = take-nil (suc m + n) ∙ sym (take-nil n)
take-add (suc m) n (x ∷ xs) =
    let more : suc m + n ≡ suc (m + n) = omega arith in
    ap (λ k. take k (x ∷ xs)) more ∙ ap (λ ys. x ∷ ys) (take-add m n xs)

-- A page is before the last exactly if something is left behind it.
lt-pages_of : (p total limit : ℕ) → 0 < limit → (p < pages_of total limit) ↔ (p * limit < total)
unfolding pages_of
lt-pages_of p total limit pos =
    let divides = le-div_iff_mul-le {k = limit} {x = suc p} {y = total + (limit - 1)} pos in
    let next : suc p * limit ≡ p * limit + limit = suc-mul p limit in
    (
      λ h. omega (arith, divides.0 (omega (arith, h)), next, pos),
      λ h.
          let there : suc p ≤ (total + (limit - 1)) / limit =
            divides.1 (omega (arith, h, next, pos)) in
          omega (arith, there),
    )

-- The messages on the first pages, one after the other.
abbrev pub first_pages : (ℕ → ChatHistory) → ℕ → List ChatMessage
first_pages answer zero = []
first_pages answer (suc p) = first_pages answer p ++ (answer p).messages

count-true : (ms : List ChatMessage) → length ms ≡ count (λ m. true) ms
count-true [] = refl
count-true (m ∷ ms) = ground (arith, count-true ms)

module _ (c : ChatRepositories) (room : String) (limit : ℕ) (s : ChatDb c) where
  abbrev in_room : ChatMessage → Bool
  in_room m = m.room == room

  -- The messages of the room, newest first, and their number.
  abbrev rows : List ChatMessage
  rows = c.listing in_room desc (λ m. m.created_at) s.messages

  abbrev number : ℕ
  number = c.messages.count in_room s.messages

  -- No two messages of the room have the same time.
  abbrev DistinctTimes : Type 0
  DistinctTimes =
      (time : ℕ) → c.messages.count (λ m. in_room m && equal_ℕ m.created_at time) s.messages ≤ 1

  length-rows : length rows ≡ number
  length-rows =
      count-true rows
      ∙ c.count-listing in_room (λ m. true) desc (λ m. m.created_at) s.messages
      ∙ ground (
        arith,
        c.messages.count_mono (λ m. in_room m && true) in_room s.messages
            (λ m h. ground (arith, h)),
        c.messages.count_mono in_room (λ m. in_room m && true) s.messages
            (λ m h. ground (arith, h)),
      )

  -- What the answer to a page says, when the query answers.
  abbrev IsPage : ℕ → ChatHistory → Type 0
  IsPage p answer =
      (answer.messages ≡ take limit (drop (p * limit) rows))
      × (answer.total ≡ number)
      × (answer.total_pages ≡ some (pages_of number limit))
      × (answer.has_more ≡ ltb (p * limit + length answer.messages) number)

  get_chat_history-IsPage :
      (p : ℕ) (answer : ChatHistory)
      → 0 < limit
      → DistinctTimes
      → (get_chat_history c room (some (suc p)) (some limit) s).0 ≡ ok answer
      → IsPage p answer
  unfolding get_chat_history history_of skip_of
  get_chat_history-IsPage p answer positive distinct done =
      let page : suc p - 1 ≡ p = omega arith in
      elim (Result-cases (
        c.find_and_count in_room desc (λ m. m.created_at) (some ((suc p - 1) * limit)) (some limit)
          s.messages)) [
            | inr (x, e) ↦ absurd (ground (arith, rw (e, get_chat_history, proceed) at done))
            | inl ((found, total), e) ↦
                let same : history_of (some (suc p)) (some limit) (found, total) ≡ answer =
                  ground (arith, rw (e, get_chat_history, proceed) at done) in
                let (r, t) =
                  c.find_and_count-page in_room desc (λ m. m.created_at) ((suc p - 1) * limit) limit
                    s.messages found total positive distinct e in
                subst (λ a. IsPage p a) same
                  (rw page at r, t, ap (λ k. some (pages_of k limit)) t, rw (page, t) refl)
          ]

  -- A page says that there is more exactly if it is not the last.
  more-IsPage :
      (p : ℕ) (answer : ChatHistory)
      → 0 < limit
      → IsPage p answer
      → answer.has_more ≡ ltb (suc p) (pages_of number limit)
  more-IsPage p answer positive (messages, _, _, more) =
      let rest = drop (p * limit) rows in
      let last = lt-pages_of (suc p) number limit positive in
      let shown : length answer.messages ≡ length (take limit rest) =
        ap (λ ms. length ms) messages in
      ground (
        arith,
        more,
        shown,
        length-take limit rest,
        length-drop (p * limit) rows,
        last,
        suc-mul p limit,
        positive,
        length-rows,
      )

  first_pages-take :
      (answer : ℕ → ChatHistory) (n : ℕ)
      → ((p : ℕ) → IsPage p (answer p))
      → first_pages answer n ≡ take (n * limit) rows
  first_pages-take answer zero pages = rw (zero-mul limit) refl
  first_pages-take answer (suc n) pages =
      rw (first_pages-take answer n pages, (pages n).0, suc-mul n limit)
        (sym (take-add (n * limit) limit rows))

  -- Where no two messages of a room have the same time, and every page of its history answers, for
  -- a limit that is not zero: each page tells the number of the room's messages and of the pages,
  -- has at most as many messages as the limit, and says that there is more exactly if it is before
  -- the last; and all the pages one after the other have each message of the room as often as the
  -- table, no others, and stand from the newest to the oldest.
  pub get_chat_history_lem :
      (answer : ℕ → ChatHistory)
      → 0 < limit
      → DistinctTimes
      → ((p : ℕ) → (get_chat_history c room (some (suc p)) (some limit) s).0 ≡ ok (answer p))
      → let all = first_pages answer (pages_of number limit) in
        ((p : ℕ)
          → ((answer p).total ≡ number)
            × ((answer p).total_pages ≡ some (pages_of number limit))
            × ((answer p).has_more ≡ ltb (suc p) (pages_of number limit))
            × (length (answer p).messages ≤ limit))
        × ((q : ChatMessage → Bool)
            → count q all ≡ c.messages.count (λ m. m.room == room && q m) s.messages)
        × Ordered desc (λ m. m.created_at) all
  get_chat_history_lem answer positive distinct answers =
      let n = pages_of number limit in
      let pages : (p : ℕ) → IsPage p (answer p) =
        λ p. get_chat_history-IsPage p (answer p) positive distinct (answers p) in
      let enough : length rows ≤ n * limit =
        ground (arith, length-rows, lt-pages_of n number limit positive) in
      let whole : first_pages answer n ≡ rows =
        first_pages-take answer n pages ∙ take-all (n * limit) rows enough in
      (
        λ p. (
          (pages p).1,
          (pages p).2,
          more-IsPage p (answer p) positive (pages p),
          rw (pages p).0 (ground (arith, length-take limit (drop (p * limit) rows))),
        ),
        λ q.
            ap (λ ms. count q ms) whole
            ∙ c.count-listing in_room q desc (λ m. m.created_at) s.messages,
        subst (λ ms. Ordered desc (λ m. m.created_at) ms) (sym whole)
            (c.listing-Ordered in_room desc (λ m. m.created_at) s.messages),
      )

-- The room of two users does not depend on their order.
pub normalize_room_comm : (a b : String) → normalize_room a b ≡ normalize_room b a
unfolding normalize_room
normalize_room_comm a b = elim (precedes_cases a b) [
  | inl (same, ab, ba) ↦ rw same refl
  | inr (inl (ab, ba)) ↦ rw (ab, ba, normalize_room) refl
  | inr (inr (ab, ba)) ↦ rw (ab, ba, normalize_room) refl
]

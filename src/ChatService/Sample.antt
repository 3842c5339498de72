-- ===== src/ChatService/Sample.antt =====
-- Repositories in memory for the chat, and a room, for the examples.
use starsyncbackend.Prelude.{
  Bool, true, false, All, ℕ, String, not, ◌&&◌, List, [], ◌∷◌, Option, some, ◌==◌, ◌≡◌, refl, ◌⊎◌,
  inl, inr, if◌then◌else◌, arith, ap, sym, eq_iff, subst, count, take, drop, ltb, Bool-cases,
}
use starsyncbackend.Effect.{Result, ok, err, database}
use starsyncbackend.Database.InMemory.{in_memory}
use starsyncbackend.Entities.{User}
use starsyncbackend.Entities.Sample.{user}
use starsyncbackend.ChatService.{
  ChatMessage, ChatReadReceipt, ChatRepositories, ChatDb, Direction, asc, desc, InOrder, Ordered,
}

-- The messages for which the join answers, each id once.
abbrev pub joined_rows :
    (ChatMessage → Bool)
    → (ChatMessage → ChatReadReceipt → Bool)
    → List ChatMessage
    → List ChatReadReceipt
    → List ChatMessage
joined_rows p on [] u = []
joined_rows p on (m ∷ ms) u =
    let rest = joined_rows p on ms u in
    if p m && not (ltb 0 (count (on m) u)) && not (ltb 0 (count (λ x. x.id == m.id) rest))
    then m ∷ rest
    else rest

pub Once :
    (ChatMessage → Bool)
    → (ChatMessage → ChatReadReceipt → Bool)
    → List ChatMessage
    → List ChatReadReceipt
    → String
    → Type 0
Once p on rows u id =
    (count (λ m. m.id == id) rows ≡ 0)
    ⊎ ((count (λ m. m.id == id) rows ≡ 1)
        × ((m : ChatMessage) × (m.id ≡ id) × (p m ≡ true) × (count (on m) u ≡ 0)))

pub joined_rows-Once :
    (p : ChatMessage → Bool) (on : ChatMessage → ChatReadReceipt → Bool) (ms : List ChatMessage)
    (u : List ChatReadReceipt) (id : String)
    → Once p on (joined_rows p on ms u) u id
unfolding Once
joined_rows-Once p on [] u id = inl refl
joined_rows-Once p on (m ∷ ms) u id =
    let rest = joined_rows p on ms u in
    elim (Bool-cases
      (p m && not (ltb 0 (count (on m) u)) && not (ltb 0 (count (λ x. x.id == m.id) rest)))) [
        | inr skipped ↦ rw skipped (joined_rows-Once p on ms u id)
        | inl taken ↦ elim (Bool-cases (m.id == id)) [
          | inl same ↦
              let this : m.id ≡ id = (eq_iff m.id id).0 same in
              rw taken (
                inr (
                  ground (
                    arith,
                    taken,
                    same,
                    ap (λ i. count (λ (x : ChatMessage). x.id == i) rest) this,
                  ),
                  (m, this, ground (arith, taken), ground (arith, taken)),
                ))
          | inr other ↦ rw taken (elim (joined_rows-Once p on ms u id) [
            | inl none ↦ inl (ground (arith, none, other))
            | inr (one, found) ↦ inr (ground (arith, one, other), found)
          ])
        ]
      ]

abbrev pub goes_first : Direction → ℕ → ℕ → Bool
goes_first asc a b = not (ltb b a)
goes_first desc a b = not (ltb a b)

goes_first-InOrder : (d : Direction) (a b : ℕ) → goes_first d a b ≡ true → InOrder d a b
goes_first-InOrder asc a b h = ground (arith, h)
goes_first-InOrder desc a b h = ground (arith, h)

goes_second-InOrder : (d : Direction) (a b : ℕ) → goes_first d a b ≡ false → InOrder d b a
goes_second-InOrder asc a b h = ground (arith, h)
goes_second-InOrder desc a b h = ground (arith, h)

InOrder-trans : (d : Direction) (a b c : ℕ) → InOrder d a b → InOrder d b c → InOrder d a c
InOrder-trans asc a b c h k = omega (arith, h, k)
InOrder-trans desc a b c h k = omega (arith, h, k)

module _ (d : Direction) (key : ChatMessage → ℕ) where
  abbrev pub put : ChatMessage → List ChatMessage → List ChatMessage
  put m [] = m ∷ []
  put m (x ∷ xs) =
      let rest = put m xs in if goes_first d (key m) (key x) then m ∷ x ∷ xs else x ∷ rest

  -- The messages that pass a test, in order.
  abbrev pub sorted : (ChatMessage → Bool) → List ChatMessage → List ChatMessage
  sorted p [] = []
  sorted p (m ∷ ms) = let rest = sorted p ms in if p m then put m rest else rest

  count-put :
      (q : ChatMessage → Bool) (m : ChatMessage) (xs : List ChatMessage)
      → count q (put m xs) ≡ count q (m ∷ xs)
  count-put q m [] = refl
  count-put q m (x ∷ xs) = ground (arith, count-put q m xs)

  pub count-sorted :
      (p q : ChatMessage → Bool) (ms : List ChatMessage)
      → count q (sorted p ms) ≡ count (λ m. p m && q m) ms
  count-sorted p q [] = refl
  count-sorted p q (m ∷ ms) = ground (arith, count-put q m (sorted p ms), count-sorted p q ms)

  All-after :
      (a : ℕ) (x : ChatMessage) (xs : List ChatMessage)
      → InOrder d a (key x)
      → All (λ y. InOrder d (key x) (key y)) xs
      → All (λ y. InOrder d a (key y)) xs
  All-after a x [] h k = tt
  All-after a x (y ∷ ys) h k = (InOrder-trans d a (key x) (key y) h k.0, All-after a x ys h k.1)

  All-put :
      (P : ChatMessage → Type 0) (m : ChatMessage) (xs : List ChatMessage)
      → P m
      → All P xs
      → All P (put m xs)
  All-put P m [] h k = (h, tt)
  All-put P m (x ∷ xs) h k = elim (Bool-cases (goes_first d (key m) (key x))) [
    | inl e ↦ rw e (h, k)
    | inr e ↦ rw e (k.0, All-put P m xs h k.1)
  ]

  put-Ordered :
      (m : ChatMessage) (xs : List ChatMessage) → Ordered d key xs → Ordered d key (put m xs)
  put-Ordered m [] o = (tt, tt)
  put-Ordered m (x ∷ xs) o = elim (Bool-cases (goes_first d (key m) (key x))) [
    | inl e ↦
        let first = goes_first-InOrder d (key m) (key x) e in
        rw e ((first, All-after (key m) x xs first o.0), o)
    | inr e ↦
        let second = goes_second-InOrder d (key m) (key x) e in
        rw e (All-put (λ y. InOrder d (key x) (key y)) m xs second o.0, put-Ordered m xs o.1)
  ]

  pub sorted-Ordered :
      (p : ChatMessage → Bool) (ms : List ChatMessage) → Ordered d key (sorted p ms)
  sorted-Ordered p [] = tt
  sorted-Ordered p (m ∷ ms) = elim (Bool-cases (p m)) [
    | inl e ↦ rw e (put-Ordered m (sorted p ms) (sorted-Ordered p ms))
    | inr e ↦ rw e (sorted-Ordered p ms)
  ]

abbrev pub page_of : List ChatMessage → ℕ → Option ℕ → Option ℕ → Result (List ChatMessage × ℕ)
page_of rows total (some skip) (some limit) = ok (take limit (drop skip rows), total)
page_of rows total _ _ = err database

pub rows_of : {A : Type 0} {x y : A} → ok x ≡ ok y → x ≡ y
rows_of e = ground (arith, e)

unfoldable pub chat_repositories : ChatRepositories
unfolding in_memory Once
chat_repositories = record {
  messages = in_memory (λ (m : ChatMessage). m.id);
  receipts = in_memory (λ (r : ChatReadReceipt). r.id);
  users = in_memory (λ (u : User). u.id);
  listing = λ p d key t. sorted d key p t;
  find_and_count = λ p d key skip limit t. page_of (sorted d key p t) (count p t) skip limit;
  left_join_null = λ p on t u. ok (joined_rows p on t u);
  count-listing = λ p q d key t. count-sorted d key p q t;
  listing-Ordered = λ p d key t. sorted-Ordered d key p t;
  find_and_count-page = λ p d key skip limit t page total positive distinct e. (
    ap (λ (x : List ChatMessage × ℕ). x.0) (rows_of (sym e)),
    ap (λ (x : List ChatMessage × ℕ). x.1) (rows_of (sym e)),
  );
  left_join_null-once = λ p on t u rows e id.
      subst (λ rows. Once p on rows u id) (rows_of e) (joined_rows-Once p on t u id);
}

abbrev pub message : String → String → ℕ → ChatMessage
message id text at = record {
  id = id;
  room = "alice_bob";
  sender_id = "alice";
  message = text;
  created_at = at;
}

unfoldable pub chat : ChatDb chat_repositories
unfolding chat_repositories in_memory
chat = record {
  messages = message "m2" "again" 2 ∷ message "m1" "hello" 1 ∷ [];
  receipts = [];
  users = user "alice" ∷ user "bob" ∷ [];
}

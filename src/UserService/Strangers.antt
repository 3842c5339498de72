-- ===== src/UserService/Strangers.antt =====
-- Whom the search of src/user/user.service.ts shows.
use Prim.Native.String.{◌++◌ as concat}
use starsyncbackend.Prelude.{
  ◌-◌, ◌*◌, ℕ, ◌≤◌, ◌<◌, String, Bool, true, false, not, ◌&&◌, ◌==◌, ◌≡◌, refl, List, [], ◌∷◌, map,
  filter, count, arith, inl, inr, Bool-cases, eq_iff, ap, ◌∙◌, sym,
}
use starsyncbackend.Effect.{Result, ok, Result-cases}
use starsyncbackend.JsSet
use starsyncbackend.JsSet.{has-add}
use starsyncbackend.Entities.{User, Friend, Repositories, Db}
use starsyncbackend.Friends.{links}
use starsyncbackend.Friends.Listed.{count_same}
use starsyncbackend.UserService.{
  UserSearch, FoundUser, SearchReply, found_user, add_each, friend_ids, reply_of, search_users,
  matches,
}

-- The ids of a list are in the set that they are added to, beside what was there.
has-add_each_old :
    (f : Friend → String) (xs : List Friend) (ids : List String) (id : String)
    → JsSet.has id ids ≡ true
    → JsSet.has id (add_each f xs ids) ≡ true
unfolding add_each
has-add_each_old f [] ids id h = h
has-add_each_old f (x ∷ xs) ids id h =
    has-add_each_old f xs (JsSet.add (f x) ids) id (ground (arith, has-add (f x) id ids, h))

has-add_each :
    (f : Friend → String) (xs : List Friend) (ids : List String) (id : String)
    → 0 < count (λ x. f x == id) xs
    → JsSet.has id (add_each f xs ids) ≡ true
unfolding add_each
has-add_each f [] ids id h = absurd (ground (arith, h))
has-add_each f (x ∷ xs) ids id h = elim (Bool-cases (f x == id)) [
  | inl same ↦
      has-add_each_old f xs (JsSet.add (f x) ids) id (ground (arith, has-add (f x) id ids, same))
  | inr other ↦ has-add_each f xs (JsSet.add (f x) ids) id (ground (arith, h, other))
]

count-found :
    (id : String) (us : List User)
    → count (λ (u : FoundUser). u.id == id) (map found_user us)
      ≡ count (λ (u : User). u.id == id) us
count-found id [] = refl
count-found id (u ∷ us) = ground (arith, count-found id us)

count-kept : (p q : User → Bool) (us : List User) → count p (filter q us) ≤ count p us
count-kept p q [] = ground arith
count-kept p q (u ∷ us) = ground (arith, count-kept p q us)

-- Whoever is shown although friends are not is not in their set.
kept-absent :
    (ids : List String) (id : String) (us : List User)
    → 0 < count (λ (u : User). u.id == id) (filter (λ (u : User). not (JsSet.has u.id ids)) us)
    → JsSet.has id ids ≡ false
kept-absent ids id [] h = absurd (ground (arith, h))
kept-absent ids id (u ∷ us) h = elim (Bool-cases (u.id == id)) [
  | inr other ↦ kept-absent ids id us (ground (arith, h, other))
  | inl same ↦ elim (Bool-cases (JsSet.has u.id ids)) [
    | inl there ↦ kept-absent ids id us (ground (arith, h, there))
    | inr absent ↦ ap (λ x. JsSet.has x ids) (sym ((eq_iff u.id id).0 same)) ∙ absent
  ]
]

none-added :
    (f : Friend → String) (xs : List Friend) (ids : List String) (id : String)
    → JsSet.has id (add_each f xs ids) ≡ false
    → count (λ x. f x == id) xs ≡ 0
none-added f xs ids id absent = ground (arith, has-add_each f xs ids id, absent)

none-before :
    (f : Friend → String) (xs : List Friend) (ids : List String) (id : String)
    → JsSet.has id (add_each f xs ids) ≡ false
    → JsSet.has id ids ≡ false
none-before f xs ids id absent = ground (arith, has-add_each_old f xs ids id, absent)

module _ (r : Repositories) (e : UserSearch r) where
  -- Whoever is not in the set of the friends' ids is no friend.
  friend_ids_complete :
      (current id : String) (s : Db r) (ids : List String)
      → (friend_ids r e current s).0 ≡ ok ids
      → JsSet.has id ids ≡ false
      → (r.friends.count (links current id) s.friends ≡ 0)
        × (r.friends.count (links id current) s.friends ≡ 0)
  unfolding friend_ids
  friend_ids_complete current id s ids done absent =
      elim (Result-cases (r.friends.find_many (λ f. f.user1 == current) s.friends)) [
        | inr (x, e1) ↦ absurd (ground (arith, e1, done))
        | inl (fs, e1) ↦
            elim (Result-cases (r.friends.find_many (λ f. f.user2 == current) s.friends)) [
              | inr (x, e2) ↦ absurd (ground (arith, e1, e2, done))
              | inl (gs, e2) ↦
                  let first = add_each (λ f. f.user2) fs [] in
                  let out : JsSet.has id (add_each (λ f. f.user1) gs first) ≡ false =
                    ap (λ x. JsSet.has id x) (ground (arith, e1, e2, done)) ∙ absent in
                  (
                    sym (
                          r.friends.count-find_many (λ f. f.user1 == current) (λ f. f.user2 == id)
                            s.friends fs e1)
                        ∙ none-added (λ f. f.user2) fs [] id
                            (none-before (λ f. f.user1) gs first id out),
                    count_same r (links id current) (λ f. f.user2 == current && f.user1 == id)
                          s.friends (λ f. ground arith)
                        ∙ sym (
                            r.friends.count-find_many (λ f. f.user2 == current) (λ f. f.user1 == id)
                              s.friends gs e2)
                        ∙ none-added (λ f. f.user1) gs first id out,
                  )
            ]
      ]

  -- What a user must pass, and the page of users that a call looks up.
  abbrev found_by : String → String → User → Bool
  found_by current text = matches r e current (concat "%" (concat (e.trim text) "%"))

  abbrev page_of : String → String → ℕ → ℕ → Db r → Result (List User × ℕ)
  page_of current text page limit s =
      e.page_of (found_by current text) ((page - 1) * limit) limit s.users

  own-unmatched :
      (current text : String) (rows : List User)
      → count (λ (u : User). u.id == current) rows ≤ count (λ u. not (found_by current text u)) rows
  unfolding matches
  own-unmatched current text [] = ground arith
  own-unmatched current text (u ∷ rows) = ground (arith, own-unmatched current text rows)

  others_only :
      (current text : String) (page limit : ℕ) (s : Db r) (rows : List User) (total : ℕ)
      (q : User → Bool) (shown : List FoundUser)
      → page_of current text page limit s ≡ ok (rows, total)
      → shown ≡ map found_user (filter q rows)
      → count (λ (u : FoundUser). u.id == current) shown ≡ 0
  others_only current text page limit s rows total q shown e1 same =
      ap (count (λ (u : FoundUser). u.id == current)) same
      ∙ count-found current (filter q rows)
      ∙ ground (
        arith,
        count-kept (λ (u : User). u.id == current) q rows,
        own-unmatched current text rows,
        e.page_of-tested (found_by current text) ((page - 1) * limit) limit s.users rows total e1,
      )

  -- When a search for users returns, whatever the text, the page and the limit, it does not show
  -- the user who asks; and where friends are to be excluded, there is no row between the one who
  -- asks and any user that it shows, in either direction.
  pub search_users_lem :
      (current text : String) (page limit : ℕ) (exclude_friends : Bool) (s : Db r)
      (reply : SearchReply)
      → (search_users r e current text page limit exclude_friends s).0 ≡ ok reply
      → (count (λ (u : FoundUser). u.id == current) reply.users ≡ 0)
        × ((id : String)
            → exclude_friends ≡ true
            → 0 < count (λ (u : FoundUser). u.id == id) reply.users
            → (r.friends.count (links current id) s.friends ≡ 0)
              × (r.friends.count (links id current) s.friends ≡ 0))
  unfolding search_users reply_of
  search_users_lem current text page limit exclude_friends s reply done =
      elim (Bool-cases (e.trim text == "")) [
        | inl blank ↦
            let none : reply.users ≡ [] = ground (arith, blank, done) in
            (ground (arith, none), λ id _ shown. absurd (ground (arith, none, shown)))
        | inr asked ↦ elim (Result-cases (page_of current text page limit s)) [
          | inr (x, e1) ↦ absurd (ground (arith, asked, e1, done))
          | inl ((rows, total), e1) ↦ go exclude_friends refl asked rows total e1
        ]
      ]
    where
      go :
          (b : Bool)
          → exclude_friends ≡ b
          → (e.trim text == "") ≡ false
          → (rows : List User) (total : ℕ) → page_of current text page limit s ≡ ok (rows, total)
          → (count (λ (u : FoundUser). u.id == current) reply.users ≡ 0)
            × ((id : String)
                → exclude_friends ≡ true
                → 0 < count (λ (u : FoundUser). u.id == id) reply.users
                → (r.friends.count (links current id) s.friends ≡ 0)
                  × (r.friends.count (links id current) s.friends ≡ 0))
      go false all asked rows total e1 =
          let same : reply.users ≡ map found_user (filter (λ u. true) rows) =
            ground (arith, asked, e1, all, done) in
          (
            others_only current text page limit s rows total (λ u. true) reply.users e1 same,
            λ id strangers _. absurd (ground (arith, all, strangers)),
          )
      go true strangers asked rows total e1 = elim (Result-cases (friend_ids r e current s).0) [
        | inr (x, e2) ↦ absurd (ground (arith, asked, e1, e2, strangers, done))
        | inl (ids, e2) ↦
            let q : User → Bool = λ u. not (JsSet.has u.id ids) in
            let same : reply.users ≡ map found_user (filter q rows) =
              ground (arith, asked, e1, e2, strangers, done) in
            (
              others_only current text page limit s rows total q reply.users e1 same,
              λ id _ shown. friend_ids_complete current id s ids e2 (
                  kept-absent ids id rows (
                    ground (
                      arith,
                      shown,
                      ap (count (λ (u : FoundUser). u.id == id)) same
                          ∙ count-found id (filter q rows),
                    ))),
            )
      ]

-- ===== src/Friends/Listed.antt =====
-- The lists of friends and of waiting requests, by src/friend/friend.service.ts. The order in which the
-- requests are sorted is left out.
use starsyncbackend.Prelude.{count as count_list}
use starsyncbackend.Prelude.{
  ℕ, ◌+◌, String, Bool, true, false, ◌&&◌, ◌==◌, if◌then◌else◌, List, [], ◌∷◌, ◌++◌, Option, none,
  some, ◌≡◌, ap, ◌∙◌, arith, inl, inr, eq_iff, count-append,
}
use starsyncbackend.Effect.{Effect, ok, ◌>>=◌, pure, query, each, Result-cases}
use starsyncbackend.Entities.{User, Friend, FriendRequest, Repositories, Db}
use starsyncbackend.Invitation.{is_pending, find_user}
use starsyncbackend.Invitation.Listed.{ShownUser, shown}
use starsyncbackend.Friends.{links}

pub record FriendDetails : Type 0 where
  pub id : String
  pub user_id : String
  pub username : String
  pub email : String
  pub first_name : String
  pub last_name : String
  pub created_at : ℕ

-- `user?.field || default`
abbrev pub field_or : (User → String) → String → Option User → String
field_or f default none = default
field_or f default (some u) = if f u == "" then default else f u

-- The other of the two friends.
unfoldable pub friend_of : String → Friend → String
friend_of user_id f = if f.user1 == user_id then f.user2 else f.user1

module _ (r : Repositories) where
  unfoldable pub friend_details : String → Friend → Effect (Db r) FriendDetails
  unfolding friend_of
  friend_details user_id f = do
    u ← find_user r (friend_of user_id f)
    pure (record {
      id = f.id;
      user_id = friend_of user_id f;
      username = field_or (λ u. u.username) "Unknown" u;
      email = field_or (λ u. u.email) "" u;
      first_name = field_or (λ u. u.first_name) "" u;
      last_name = field_or (λ u. u.last_name) "" u;
      created_at = f.created_at;
    })

  unfoldable pub get_friends : String → Effect (Db r) (List FriendDetails)
  unfolding friend_details each
  get_friends user_id = do
    friends1 ← query (λ s. r.friends.find_many (λ f. f.user1 == user_id) s.friends)
    friends2 ← query (λ s. r.friends.find_many (λ f. f.user2 == user_id) s.friends)
    each (friend_details user_id) (friends1 ++ friends2)

  -- A request with what is shown of the other user.
  pub record RequestDetails : Type 0 where
    pub request : FriendRequest
    pub other : ShownUser

  pub record Requests : Type 0 where
    pub sent : List RequestDetails
    pub received : List RequestDetails

  unfoldable pub sent_details : FriendRequest → Effect (Db r) RequestDetails
  unfolding shown
  sent_details q = do
    receiver ← find_user r q.receiver_id
    pure (record { request = q; other = shown receiver })

  unfoldable pub received_details : FriendRequest → Effect (Db r) RequestDetails
  unfolding shown
  received_details q = do
    sender ← find_user r q.sender_id
    pure (record { request = q; other = shown sender })

  unfoldable pub get_friend_requests : String → Effect (Db r) Requests
  unfolding sent_details received_details each
  get_friend_requests user_id = do
    sent_requests ← query (λ s.
        r.friend_requests.find_many (λ q. q.sender_id == user_id && is_pending q.status)
          s.friend_requests)
    received_requests ← query (λ s.
        r.friend_requests.find_many (λ q. q.receiver_id == user_id && is_pending q.status)
          s.friend_requests)
    sent ← each sent_details sent_requests
    received ← each received_details received_requests
    pure (record { sent = sent; received = received })

  -- The details have the ids of the others, in the order of the rows.
  details-count :
      (user other : String) (fs : List Friend) (s : Db r) (out : List FriendDetails)
      → (each (friend_details user) fs s).0 ≡ ok out
      → count_list (λ (d : FriendDetails). d.user_id == other) out
        ≡ count_list (λ (f : Friend). friend_of user f == other) fs
  unfolding each friend_details
  details-count user other [] s out done = ground (arith, done)
  details-count user other (f ∷ fs) s out done =
      elim (Result-cases (r.users.find_one (λ u. u.id == friend_of user f) s.users)) [
        | inr (x, e1) ↦ absurd (ground (arith, e1, done))
        | inl (u, e1) ↦ elim (Result-cases (each (friend_details user) fs s).0) [
          | inr (x, e2) ↦ absurd (ground (arith, e1, e2, done))
          | inl (rest, e2) ↦ ground (arith, e1, e2, done, details-count user other fs s rest e2)
        ]
      ]

  pub count_same :
      (p q : Friend → Bool) (t : r.friends.Table)
      → ((f : Friend) → p f ≡ q f)
      → r.friends.count p t ≡ r.friends.count q t
  count_same p q t h = ground (
    arith,
    r.friends.count_mono p q t (λ f e. ground (arith, h f, e)),
    r.friends.count_mono q p t (λ f e. ground (arith, h f, e)),
  )

  -- The rows that put the user first, or second, and whose other is the one that is asked for.
  first-links :
      (user other : String) (f : Friend)
      → (f.user1 == user && friend_of user f == other) ≡ links user other f
  unfolding friend_of
  first-links user other f = ground arith

  pub clash :
      (a user other : String) → (user == other) ≡ false → (a == user) ≡ true → (a == other) ≡ false
  clash a user other differ same = ap (λ x. x == other) ((eq_iff a user).0 same) ∙ differ

  second-links :
      (user other : String) (f : Friend)
      → (user == other) ≡ false
      → (f.user2 == user && friend_of user f == other) ≡ links other user f
  unfolding friend_of
  second-links user other f differ =
      ground (arith, clash f.user1 user other differ, clash f.user2 user other differ)

  -- The list of friends names another user as often as there are rows between the two.
  pub get_friends_lem :
      (user other : String) (s : Db r) (out : List FriendDetails)
      → (user == other) ≡ false
      → (get_friends user s).0 ≡ ok out
      → count_list (λ (d : FriendDetails). d.user_id == other) out
        ≡ r.friends.count (links user other) s.friends
          + r.friends.count (links other user) s.friends
  unfolding get_friends
  get_friends_lem user other s out differ done =
      elim (Result-cases (r.friends.find_many (λ f. f.user1 == user) s.friends)) [
        | inr (x, e1) ↦ absurd (ground (arith, e1, done))
        | inl (fs, e1) ↦
            elim (Result-cases (r.friends.find_many (λ f. f.user2 == user) s.friends)) [
              | inr (x, e2) ↦ absurd (ground (arith, e1, e2, done))
              | inl (gs, e2) ↦
                  let is_other : Friend → Bool = λ f. friend_of user f == other in
                  details-count user other (fs ++ gs) s out (ground (arith, e1, e2, done))
                  ∙ count-append is_other fs gs
                  ∙ ap (λ m. m + count_list is_other gs)
                      (r.friends.count-find_many (λ f. f.user1 == user) is_other s.friends fs e1
                        ∙ count_same _ _ s.friends (first-links user other))
                  ∙ ap (λ n. r.friends.count (links user other) s.friends + n)
                      (r.friends.count-find_many (λ f. f.user2 == user) is_other s.friends gs e2
                        ∙ count_same _ _ s.friends (λ f. second-links user other f differ))
            ]
      ]

-- ===== src/Friends/Pairs.antt =====
-- Who is whose friend after src/friend/friend.service.ts has added or removed a friend.
use starsyncbackend.Prelude.{
  ℕ, String, Bool, true, false, ◌&&◌, ◌||◌, not, some, ◌==◌, if◌then◌else◌, ◌≡◌, ◌+◌, refl, arith,
  eq_iff, eq_refl, suc, ap, sym, ◌∙◌,
}
use starsyncbackend.Effect.{Result, ok, err, not_found, ◌>>=◌, ◌>>◌, pure, found}
use starsyncbackend.Effect.Keeps.{bind_ok}
use starsyncbackend.Entities.{Friend, FriendRequest, accepted, Repositories, Db}
use starsyncbackend.Invitation.{is_pending, find_user}
use starsyncbackend.Friends.{
  links, find_request, insert_friend, delete_friends, update_request, new_friend, remove_friend,
  notify_both, accept_friend_request,
}

module _ (r : Repositories) where
  -- Both directions of a friendship.
  abbrev pub linked : String → String → Friend → Bool
  linked a b f = links a b f || links b a f

  delete_lem :
      (p q : Friend → Bool) (s : Db r)
      → (delete_friends r q s).0 ≡ ok tt
      → r.friends.count p (delete_friends r q s).1.friends
        ≡ r.friends.count (λ x. p x && not (q x)) s.friends
  delete_lem p q s done = go (r.friends.delete q s.friends) refl
    where
      go :
          (res : Result r.friends.Table)
          → r.friends.delete q s.friends ≡ res
          → r.friends.count p (delete_friends r q s).1.friends
            ≡ r.friends.count (λ x. p x && not (q x)) s.friends
      go (err x) e = absurd (ground (arith, e, done))
      go (ok t) e = rw (e, delete_friends) (r.friends.count-delete p q s.friends t e)

  -- The two deletions of a removal that returns.
  remove_parts :
      (user friend : String) (s : Db r)
      → (remove_friend r user friend s).0 ≡ ok tt
      → let s1 = (delete_friends r (links user friend) s).1 in
        ((delete_friends r (links user friend) s).0 ≡ ok tt)
        × ((delete_friends r (links friend user) s1).0 ≡ ok tt)
        × ((remove_friend r user friend s).1 ≡ (delete_friends r (links friend user) s1).1)
  unfolding remove_friend
  remove_parts user friend s done =
      let (u, first, rest) =
        bind_ok (delete_friends r (links user friend)) (λ _. delete_friends r (links friend user)) s
          tt done in
      (
        first,
        ap (λ (x : Result (Unit {0}) × Db r). x.0) (sym rest) ∙ done,
        ap (λ (x : Result (Unit {0}) × Db r). x.1) rest,
      )

  -- The number of rows that pass a test, after a removal that returns.
  remove_counts :
      (user friend : String) (s : Db r) (p : Friend → Bool)
      → (remove_friend r user friend s).0 ≡ ok tt
      → r.friends.count p (remove_friend r user friend s).1.friends
        ≡ r.friends.count
            (λ x. (p x && not (links friend user x)) && not (links user friend x))
            s.friends
  remove_counts user friend s p done =
      let parts = remove_parts user friend s done in
      ap (λ (t : Db r). r.friends.count p t.friends) parts.2
      ∙ delete_lem p (links friend user) _ parts.1
      ∙ delete_lem (λ x. p x && not (links friend user x)) (links user friend) s parts.0

  -- When the removal of a friend returns, of any number of rows between the two users, in either
  -- direction, none is left, and the number of rows that pass a test which no row between the two
  -- passes is as before.
  pub remove_friend_lem :
      (user friend : String) (s : Db r)
      → (remove_friend r user friend s).0 ≡ ok tt
      → let t = (remove_friend r user friend s).1 in
        (r.friends.count (linked user friend) t.friends ≡ 0)
        × ((p : Friend → Bool)
            → ((f : Friend) → p f ≡ true → linked user friend f ≡ false)
            → r.friends.count p t.friends ≡ r.friends.count p s.friends)
  remove_friend_lem user friend s done = (
    remove_counts user friend s (linked user friend) done
        ∙ r.friends.count-never _ s.friends (λ x. ground arith),
    λ p apart.
        let kept =
          λ (x : Friend). (p x && not (links friend user x)) && not (links user friend x) in
        ground (
          arith,
          remove_counts user friend s p done,
          r.friends.count_mono kept p s.friends (λ x h. ground arith),
          r.friends.count_mono p kept s.friends (λ x h. ground (arith, apart x h)),
        ),
  )

  insert_lem :
      (f : String → ℕ → Friend) (s : Db r) (new : Friend)
      → (insert_friend r f s).0 ≡ ok new
      → ((id : String) × (at : ℕ) × (new ≡ f id at))
        × ((p : Friend → Bool)
            → r.friends.count p (insert_friend r f s).1.friends
              ≡ (if p new then 1 else 0) + r.friends.count p s.friends)
  insert_lem f s new done = go (r.friends.insert f s.friends) refl
    where
      go :
          (res : Result (r.friends.Table × Friend))
          → r.friends.insert f s.friends ≡ res
          → ((id : String) × (at : ℕ) × (new ≡ f id at))
            × ((p : Friend → Bool)
                → r.friends.count p (insert_friend r f s).1.friends
                  ≡ (if p new then 1 else 0) + r.friends.count p s.friends)
      go (err x) e = absurd (ground (arith, e, done))
      go (ok (t, row)) e =
          let same : row ≡ new = ground (arith, e, done) in
          let e' = rw same at e in
          (
            r.friends.insert-row f s.friends t new e',
            λ p. rw (e, insert_friend) (r.friends.count-insert f p s.friends t new e'),
          )

  -- The lookups and notices at the end of an acceptance.
  accept_end :
      (q : FriendRequest) (new friend : Friend) (s : Db r)
      → let end =
          (find_user r q.sender_id
              >> (find_user r q.receiver_id >> (notify_both r q "accepted" >> pure new)))
            s in
        end.0 ≡ ok friend → (new ≡ friend) × (end.1.friends ≡ s.friends)
  unfolding notify_both
  accept_end q new friend s done =
      let (u1, h1, e1) = bind_ok (find_user r q.sender_id) _ s friend done in
      let (u2, h2, e2) = bind_ok (find_user r q.receiver_id) _ s friend (rw e1 at done) in
      (ground (arith, rw e2 at (rw e1 at done)), rw (e1, e2) refl)

  request_update-friends :
      (q : FriendRequest) (s : Db r) → (update_request r q s).1.friends ≡ s.friends
  request_update-friends q s = ground arith

  -- What `acceptFriendRequest` does with the request that it found.
  accept_rest :
      (q : FriendRequest) (s : Db r) (friend : Friend) (user : String)
      → q.receiver_id ≡ user
      → let m =
          (insert_friend r (new_friend r q.sender_id q.receiver_id) >>= λ new.
          update_request r (record q { status = accepted })
          >> (find_user r q.sender_id
              >> (find_user r q.receiver_id >> (notify_both r q "accepted" >> pure new))))
            s in
        m.0 ≡ ok friend
        → (friend.user2 ≡ user)
          × (r.friends.count (linked friend.user1 user) m.1.friends
              ≡ suc (r.friends.count (linked friend.user1 user) s.friends))
  unfolding new_friend
  accept_rest q s friend user mine done =
      let f = new_friend r q.sender_id q.receiver_id in
      let (new, inserted, e1) = bind_ok (insert_friend r f) _ s friend done in
      let done1 = rw e1 at done in
      let s1 = (insert_friend r f s).1 in
      let (u, updated, e2) =
        bind_ok (update_request r (record q { status = accepted })) _ s1 friend done1 in
      let (same, ended) = accept_end q new friend _ (rw e2 at done1) in
      let ((id, at, shape), counted) = insert_lem f s new inserted in
      let shape' : friend ≡ f id at = sym same ∙ shape in
      let both = linked friend.user1 user in
      let second : friend.user2 ≡ user = ap (λ (x : Friend). x.user2) shape' ∙ mine in
      let hit : both new ≡ true = ground (
        arith,
        ap (λ (x : Friend). x.user1) same,
        ap (λ (x : Friend). x.user2) shape,
        mine,
        eq_refl friend.user1,
        eq_refl user,
      ) in
      let one : r.friends.count both s1.friends ≡ suc (r.friends.count both s.friends) =
        ground (arith, counted both, hit) in
      (
        second,
        rw (e1, e2)
            (ap (r.friends.count both)
                (ended ∙ request_update-friends (record q { status = accepted }) s1)
              ∙ one),
      )

  -- When the acceptance of a friend request returns, the user who accepts is the second of the new
  -- friendship, and there is one more row between the two users than before, also where there was
  -- one already.
  pub accept_friend_request_lem :
      (user id : String) (s : Db r) (friend : Friend)
      → (accept_friend_request r user id s).0 ≡ ok friend
      → (friend.user2 ≡ user)
        × (r.friends.count (linked friend.user1 user) (accept_friend_request r user id s).1.friends
            ≡ suc (r.friends.count (linked friend.user1 user) s.friends))
  unfolding accept_friend_request
  accept_friend_request_lem user id s friend done =
      let p = λ (q : FriendRequest). q.id == id && q.receiver_id == user && is_pending q.status in
      let (row, looked, e1) = bind_ok (find_request r p) _ s friend done in
      let done1 = rw e1 at done in
      let (q, same, e2) =
        bind_ok (found row (not_found "Friend request not found")) _ s friend done1 in
      let there : r.friend_requests.find_one p s.friend_requests ≡ ok (some q) =
        ground (arith, looked, same) in
      let kept : (found row (not_found "Friend request not found") s).1 ≡ s =
        ground (arith, same) in
      let mine : q.receiver_id ≡ user = ground (
        arith,
        (r.friend_requests.find_one-some p s.friend_requests q there).0,
        eq_iff q.receiver_id user,
      ) in
      let rest = accept_rest q s friend user mine (rw kept at (rw e2 at done1)) in
      rw (e1, e2, kept) rest

-- ===== src/Friends/Removed.antt =====
-- Which friends are listed after src/friend/friend.service.ts has removed one.
use starsyncbackend.Prelude.{count as count_list}
use starsyncbackend.Prelude.{
  ◌+◌, String, Bool, true, false, ◌||◌, ◌==◌, List, ◌≡◌, sym, ap, ◌∙◌, arith,
}
use starsyncbackend.Effect.{ok}
use starsyncbackend.Entities.{Friend, Repositories, Db}
use starsyncbackend.Friends.{links, remove_friend}
use starsyncbackend.Friends.Pairs.{linked, remove_friend_lem}
use starsyncbackend.Friends.Listed.{FriendDetails, get_friends, get_friends_lem, clash}

module _ (r : Repositories) where
  -- A row between a user and a third is none between the user and the one who is removed.
  third-apart :
      (user other third : String) (f : Friend)
      → (other == third) ≡ false
      → (user == third) ≡ false
      → (links user third f || links third user f) ≡ true
      → linked r user other f ≡ false
  third-apart user other third f apart self here = ground (
    arith,
    here,
    clash r f.user1 other third apart,
    clash r f.user2 other third apart,
    clash r f.user1 user third self,
    clash r f.user2 user third self,
  )

  -- When the removal of another user as a friend returns, of any number of rows between the two and
  -- in either direction, and the friends are then listed, the list does not name the one who was
  -- removed, and it names every third user as often as the list before the removal did.
  pub removed_not_listed :
      (user other : String) (s : Db r) (out : List FriendDetails)
      → (user == other) ≡ false
      → (remove_friend r user other s).0 ≡ ok tt
      → (get_friends r user (remove_friend r user other s).1).0 ≡ ok out
      → (count_list (λ (d : FriendDetails). d.user_id == other) out ≡ 0)
        × ((third : String) (before : List FriendDetails)
            → (other == third) ≡ false
            → (user == third) ≡ false
            → (get_friends r user s).0 ≡ ok before
            → count_list (λ (d : FriendDetails). d.user_id == third) out
              ≡ count_list (λ (d : FriendDetails). d.user_id == third) before)
  removed_not_listed user other s out differ removed listed =
      let t = (remove_friend r user other s).1 in
      let (gone, same) = remove_friend_lem r user other s removed in
      let kept : (p : Friend → Bool)
          → ((f : Friend) → p f ≡ true → linked r user other f ≡ false)
          → r.friends.count p t.friends ≡ r.friends.count p s.friends =
        same in
      (
        get_friends_lem r user other t out differ listed
            ∙ ground (
              arith,
              gone,
              r.friends.count_mono (links user other) (linked r user other) t.friends
                  (λ f h. ground (arith, h)),
              r.friends.count_mono (links other user) (linked r user other) t.friends
                  (λ f h. ground (arith, h)),
            ),
        λ third before apart self listed_before.
            get_friends_lem r user third t out self listed
            ∙ ap (λ n. n + r.friends.count (links third user) t.friends)
                (kept (links user third)
                  λ f h. third-apart user other third f apart self (ground (arith, h)))
            ∙ ap (λ n. r.friends.count (links user third) s.friends + n)
                (kept (links third user)
                  λ f h. third-apart user other third f apart self (ground (arith, h)))
            ∙ sym (get_friends_lem r user third s before self listed_before),
      )

-- ===== src/UserService/Examples.antt =====
-- A search of src/user/user.service.ts that leaves a friend out.
use starsyncbackend.Prelude.{
  Bool, ◌<◌, String, true, not, ◌==◌, ◌≡◌, refl, List, [], ◌∷◌, filter, count, length, arith,
}
use starsyncbackend.Effect.{ok}
use starsyncbackend.JsSet
use starsyncbackend.Database.InMemory.{in_memory}
use starsyncbackend.Entities.{User, Db}
use starsyncbackend.Entities.Sample.{repositories, user}
use starsyncbackend.Friends.{links}
use starsyncbackend.UserService.{
  UserSearch, FoundUser, SearchReply, found_user, add_each, friend_ids, reply_of, search_users,
  matches,
}
use starsyncbackend.UserService.Strangers.{search_users_lem}

count-tested : (p : User → Bool) (us : List User) → count (λ u. not (p u)) (filter p us) ≡ 0
count-tested p [] = refl
count-tested p (u ∷ us) = ground (arith, count-tested p us)

-- Every text is like every term, and a page has all.
unfoldable everybody : UserSearch repositories
unfolding repositories in_memory
everybody = record {
  trim = λ t. t;
  like = λ t term. true;
  page_of = λ p skip take t. ok (filter p t, length (filter p t));
  page_of-tested = λ p skip take t rows total found. ground (arith, found, count-tested p t);
}

unfoldable database : Db repositories
unfolding in_memory repositories
database = record {
  users = user "alice" ∷ user "bob" ∷ user "carol" ∷ [];
  projects = [];
  collaborators = [];
  invitations = [];
  friends = record { id = "f"; user1 = "bob"; user2 = "alice"; created_at = 0 } ∷ [];
  friend_requests = [];
  notices = [];
}

-- One of the two others is shown, and the reply says that there are more.
abbrev reply : SearchReply
reply = record {
  users = found_user (user "carol") ∷ [];
  total = 1;
  page = 1;
  total_pages = 1;
  has_more = true;
}

search_users_lem_example :
    (count (λ (u : FoundUser). u.id == "alice") reply.users ≡ 0)
    × ((id : String)
        → true ≡ true
        → 0 < count (λ (u : FoundUser). u.id == id) reply.users
        → (repositories.friends.count (links "alice" id) database.friends ≡ 0)
          × (repositories.friends.count (links id "alice") database.friends ≡ 0))
unfolding everybody database repositories in_memory search_users friend_ids reply_of matches
    add_each JsSet.add JsSet.has JsSet.push
search_users_lem_example =
    search_users_lem repositories everybody "alice" "a" 1 20 true database reply refl

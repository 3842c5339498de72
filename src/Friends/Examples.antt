-- ===== src/Friends/Examples.antt =====
-- Runs of src/friend/friend.service.ts over a database in memory: two users, and a request.
use starsyncbackend.Prelude.{String, List, count, ◌==◌, false, [], ◌∷◌, ◌≡◌, refl, arith}
use starsyncbackend.Effect.{ok, each}
use starsyncbackend.Database.InMemory.{in_memory}
use starsyncbackend.Entities.{Friend, Db}
use starsyncbackend.Entities.Sample.{repositories, user}
use starsyncbackend.Friends.{remove_friend}
use starsyncbackend.Friends.Requests.{OneRequest}
use starsyncbackend.Friends.History.{send, accept, run, run-OneRequest}
use starsyncbackend.Friends.Listed.{FriendDetails, get_friends, friend_details, friend_of}
use starsyncbackend.Friends.Removed.{removed_not_listed}

abbrev row : Friend
row = record { id = "f"; user1 = "alice"; user2 = "bob"; created_at = 0 }

abbrev database : Db repositories
unfolding in_memory repositories
database = record {
  users = user "alice" ∷ user "bob" ∷ [];
  projects = [];
  collaborators = [];
  invitations = [];
  friends = row ∷ [];
  friend_requests = [];
  notices = [];
}

database-OneRequest : OneRequest repositories database
unfolding in_memory repositories
database-OneRequest = record { once = λ a b. ground arith }

run-OneRequest_example :
    OneRequest repositories
      (run repositories (send "bob" "alice" ∷ accept "alice" "id" ∷ []) database)
run-OneRequest_example =
    run-OneRequest repositories (send "bob" "alice" ∷ accept "alice" "id" ∷ []) database
      database-OneRequest

-- Two friends, of whom one is removed and the other has no row as a user.
unfoldable befriended : Db repositories
unfolding in_memory repositories
befriended = record database {
  friends = row ∷ record { id = "g"; user1 = "bob"; user2 = "carol"; created_at = 1 } ∷ [];
}

abbrev listed : List FriendDetails
listed =
    record {
      id = "g";
      user_id = "carol";
      username = "Unknown";
      email = "";
      first_name = "";
      last_name = "";
      created_at = 1;
    }
    ∷ []

removed_not_listed_example :
    (count (λ (d : FriendDetails). d.user_id == "alice") listed ≡ 0)
    × ((third : String) (before : List FriendDetails)
        → ("alice" == third) ≡ false
        → ("bob" == third) ≡ false
        → (get_friends repositories "bob" befriended).0 ≡ ok before
        → count (λ (d : FriendDetails). d.user_id == third) listed
          ≡ count (λ (d : FriendDetails). d.user_id == third) before)
unfolding in_memory repositories remove_friend befriended get_friends each friend_details friend_of
removed_not_listed_example =
    removed_not_listed repositories "bob" "alice" befriended listed refl refl refl

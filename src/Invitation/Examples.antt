-- ===== src/Invitation/Examples.antt =====
-- Runs of the services over a database in memory: an owner, a project, and a user who is invited.
use starsyncbackend.Prelude.{List, [], ◌∷◌, arith}
use starsyncbackend.Database.InMemory.{in_memory}
use starsyncbackend.Entities.Sample.{repositories, user}
use starsyncbackend.Entities.{Project, Db, viewer}
use starsyncbackend.Invitation.Rows.{OneEach}
use starsyncbackend.Invitation.Invariant.{Call, send, accept, run, run-OneEach}

abbrev song : Project
song = record { id = "song"; owner_id = "alice"; name = "Song"; notes = "" }

abbrev database : Db repositories
unfolding in_memory repositories
database = record {
  users = user "alice" ∷ user "bob" ∷ [];
  projects = song ∷ [];
  collaborators = [];
  invitations = [];
  friends = [];
  friend_requests = [];
  notices = [];
}

database-OneEach : OneEach repositories database
unfolding in_memory repositories
database-OneEach = record { invited = λ p u. ground arith; joined = λ p u. ground arith }

abbrev calls : List Call
calls = send "alice" "song" "bob" viewer ∷ send "alice" "song" "bob" viewer ∷ accept "bob" "id" ∷ []

run-OneEach_example : OneEach repositories (run repositories calls database)
run-OneEach_example = run-OneEach repositories calls database database-OneEach

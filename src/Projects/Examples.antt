-- ===== src/Projects/Examples.antt =====
-- Runs of src/project/project.service.ts over a database in memory: two projects with one collaborator.
use starsyncbackend.Prelude.{String, Bool, true, false, ◌==◌, [], ◌∷◌, none, ◌≡◌, refl, arith}
use starsyncbackend.Effect.{ok}
use starsyncbackend.Database.InMemory.{in_memory}
use starsyncbackend.Entities.{Project, Collaborator, editor, Db}
use starsyncbackend.Entities.Sample.{repositories, user}
use starsyncbackend.Projects.{remove_collaborator}
use starsyncbackend.Projects.Invariant.{OneEach, create, add, run, projects_stay_unique}
use starsyncbackend.Projects.Guards.{remove_collaborator_lem}

abbrev project : String → Project
project id = record { id = id; owner_id = "alice"; name = id; notes = "" }

abbrev of_bob : String → Collaborator
of_bob project_id = record {
  id = project_id;
  project_id = project_id;
  user_id = "bob";
  role = editor;
}

abbrev database : Db repositories
unfolding in_memory repositories
database = record {
  users = user "alice" ∷ user "bob" ∷ [];
  projects = project "song" ∷ project "tune" ∷ [];
  collaborators = of_bob "song" ∷ of_bob "tune" ∷ [];
  invitations = [];
  friends = [];
  friend_requests = [];
  notices = [];
}

abbrev no_rows : Db repositories
unfolding in_memory repositories
no_rows = record {
  users = user "alice" ∷ [];
  projects = [];
  collaborators = [];
  invitations = [];
  friends = [];
  friend_requests = [];
  notices = [];
}

no_rows-OneEach : OneEach repositories no_rows
unfolding in_memory repositories
no_rows-OneEach = record { named = λ n. ground arith; joined = λ p u. ground arith }

projects_stay_unique_example : OneEach repositories (
    run repositories
      (create "alice" "song" ∷ add "alice" "id" "bob" none ∷ create "bob" "song" ∷ [])
      no_rows)
projects_stay_unique_example =
    projects_stay_unique repositories
      (create "alice" "song" ∷ add "alice" "id" "bob" none ∷ create "bob" "song" ∷ []) no_rows
      no_rows-OneEach

removed : (remove_collaborator repositories "alice" "song" "bob" database).0 ≡ ok tt
unfolding in_memory repositories remove_collaborator database
removed = refl

remove_collaborator_lem_example :
    let t = (remove_collaborator repositories "alice" "song" "bob" database).1 in
    (repositories.collaborators.count (λ c. c.user_id == "bob") t.collaborators ≡ 0)
    × ((p : Collaborator → Bool)
        → ((c : Collaborator) → p c ≡ true → (c.user_id == "bob") ≡ false)
        → repositories.collaborators.count p t.collaborators
          ≡ repositories.collaborators.count p database.collaborators)
remove_collaborator_lem_example =
    remove_collaborator_lem repositories "alice" "song" "bob" database removed

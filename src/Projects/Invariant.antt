-- ===== src/Projects/Invariant.antt =====
-- The rows of src/project/project.service.ts over histories of its operations.
use starsyncbackend.Prelude.{
  String, Bool, not, ◌&&◌, ◌==◌, Option, none, is_some, List, [], ◌∷◌, ◌≡◌, ◌≤◌, refl, arith,
  eq_iff,
}
use starsyncbackend.Effect.{Result, ok, err, query}
use starsyncbackend.Effect.Keeps.{bind_keeps, throw_if_keeps, lookup_keeps, found_keeps}
use starsyncbackend.Entities.{Project, Collaborator, CollaboratorRole, Repositories, Db}
use starsyncbackend.Permission.{find_project, find_collaborator, can_invite, can_delete}
use starsyncbackend.Permission.Roles.{get_user_role-reads}
use starsyncbackend.Invitation.{insert_collaborator}
use starsyncbackend.Invitation.Rows.{is_member}
use starsyncbackend.Projects.{
  insert_project, delete_projects, delete_collaborators, new_project, added_collaborator,
  create_project, delete_project, add_collaborator, remove_collaborator,
}

-- At most one project has a name, and a user is a collaborator of a project at most once.
pub record OneEach (r : Repositories) (s : Db r) : Type 0 where
  pub named : (name : String) → r.projects.count (λ p. p.name == name) s.projects ≤ 1
  pub joined :
      (project user : String) → r.collaborators.count (is_member project user) s.collaborators ≤ 1

module _ (r : Repositories) where
  pub can_invite-reads : (user project : String) (t : Db r) → (can_invite r user project t).1 ≡ t
  unfolding can_invite
  can_invite-reads user project t = ground (arith, get_user_role-reads r user project t)

  pub can_delete-reads : (user project : String) (t : Db r) → (can_delete r user project t).1 ≡ t
  unfolding can_delete
  can_delete-reads user project t = ground (arith, get_user_role-reads r user project t)

  insert_project-OneEach :
      (owner name : String) (s : Db r)
      → r.projects.find_one (λ p. p.name == name) s.projects ≡ ok none
      → OneEach r s
      → OneEach r (insert_project r (new_project r owner name) s).1
  unfolding new_project
  insert_project-OneEach owner name s free o =
      go (r.projects.insert (new_project r owner name) s.projects) refl
    where
      go :
          (res : Result (r.projects.Table × Project))
          → r.projects.insert (new_project r owner name) s.projects ≡ res
          → OneEach r (insert_project r (new_project r owner name) s).1
      go (err x) e = rw (e, insert_project) o
      go (ok (t, row)) e =
          let (id, at, same) = r.projects.insert-row _ s.projects t row e in
          rw (e, insert_project)
            (record {
              named = λ n. ground (
                arith,
                same,
                r.projects.count-insert _ (λ p. p.name == n) s.projects t row e,
                o.named n,
                r.projects.find_one-none (λ p. p.name == name) s.projects free,
                eq_iff name n,
              );
              joined = o.joined;
            })

  add_row-OneEach :
      (project user : String) (role : Option CollaboratorRole) (s : Db r)
      → r.collaborators.find_one (is_member project user) s.collaborators ≡ ok none
      → OneEach r s
      → OneEach r (insert_collaborator r (added_collaborator r project user role) s).1
  unfolding added_collaborator
  add_row-OneEach project user role s free o =
      go (r.collaborators.insert (added_collaborator r project user role) s.collaborators) refl
    where
      go :
          (res : Result (r.collaborators.Table × Collaborator))
          → r.collaborators.insert (added_collaborator r project user role) s.collaborators ≡ res
          → OneEach r (insert_collaborator r (added_collaborator r project user role) s).1
      go (err x) e = rw (e, insert_collaborator) o
      go (ok (t, row)) e =
          let (id, at, same) = r.collaborators.insert-row _ s.collaborators t row e in
          rw (e, insert_collaborator)
            (record {
              named = o.named;
              joined = λ p u. ground (
                arith,
                same,
                r.collaborators.count-insert _ (is_member p u) s.collaborators t row e,
                o.joined p u,
                r.collaborators.find_one-none (is_member project user) s.collaborators free,
                eq_iff project p,
                eq_iff user u,
              );
            })

  delete_projects-OneEach :
      (q : Project → Bool) (s : Db r) → OneEach r s → OneEach r (delete_projects r q s).1
  delete_projects-OneEach q s o = go (r.projects.delete q s.projects) refl
    where
      go :
          (res : Result r.projects.Table)
          → r.projects.delete q s.projects ≡ res
          → OneEach r (delete_projects r q s).1
      go (err x) e = rw (e, delete_projects) o
      go (ok t) e =
          rw (e, delete_projects)
            (record {
              named = λ n. ground (
                arith,
                r.projects.count-delete (λ p. p.name == n) q s.projects t e,
                o.named n,
                r.projects.count_mono (λ x. (x.name == n) && not (q x)) (λ p. p.name == n)
                    s.projects (λ x h. ground arith),
              );
              joined = o.joined;
            })

  delete_collaborators-OneEach :
      (q : Collaborator → Bool) (s : Db r) → OneEach r s → OneEach r (delete_collaborators r q s).1
  delete_collaborators-OneEach q s o = go (r.collaborators.delete q s.collaborators) refl
    where
      go :
          (res : Result r.collaborators.Table)
          → r.collaborators.delete q s.collaborators ≡ res
          → OneEach r (delete_collaborators r q s).1
      go (err x) e = rw (e, delete_collaborators) o
      go (ok t) e =
          rw (e, delete_collaborators)
            (record {
              named = o.named;
              joined = λ p u. ground (
                arith,
                r.collaborators.count-delete (is_member p u) q s.collaborators t e,
                o.joined p u,
                r.collaborators.count_mono (λ x. is_member p u x && not (q x)) (is_member p u)
                    s.collaborators (λ x h. ground arith),
              );
            })

  create_project-OneEach :
      (user name : String) (s : Db r) → OneEach r s → OneEach r (create_project r user name s).1
  unfolding create_project
  create_project-OneEach user name s o =
      bind_keeps (OneEach r)
        (query (λ (s : Db r). r.projects.find_one (λ p. p.name == name) s.projects)) _ s o
        λ p looked.
          throw_if_keeps (OneEach r) (is_some p) _ _ s o
            λ free. insert_project-OneEach user name s (ground (arith, looked, free)) o

  delete_project-OneEach :
      (user id : String) (s : Db r) → OneEach r s → OneEach r (delete_project r user id s).1
  unfolding delete_project
  delete_project-OneEach user id s o =
      lookup_keeps (OneEach r) (find_project r id) _ s (λ t. refl) o
        λ p. found_keeps (OneEach r) p _ _ s o λ _ _.
          lookup_keeps (OneEach r) (can_delete r user id) _ s (can_delete-reads user id) o λ may.
            throw_if_keeps (OneEach r) (not may) _ _ s o
              λ _. delete_projects-OneEach (λ p. p.id == id) s o

  add_collaborator-OneEach :
      (owner project user : String) (role : Option CollaboratorRole) (s : Db r)
      → OneEach r s
      → OneEach r (add_collaborator r owner project user role s).1
  unfolding add_collaborator
  add_collaborator-OneEach owner project user role s o =
      lookup_keeps (OneEach r) (find_project r project) _ s (λ t. refl) o
        λ p. found_keeps (OneEach r) p _ _ s o λ _ _.
          lookup_keeps (OneEach r) (can_invite r owner project) _ s (can_invite-reads owner project)
            o
            λ may. throw_if_keeps (OneEach r) (not may) _ _ s o λ _.
              bind_keeps (OneEach r) (find_collaborator r project user) _ s o λ c looked.
                throw_if_keeps (OneEach r) (is_some c) _ _ s o
                  λ free. add_row-OneEach project user role s (ground (arith, looked, free)) o

  remove_collaborator-OneEach :
      (owner project user : String) (s : Db r)
      → OneEach r s
      → OneEach r (remove_collaborator r owner project user s).1
  unfolding remove_collaborator
  remove_collaborator-OneEach owner project user s o =
      lookup_keeps (OneEach r) (find_project r project) _ s (λ t. refl) o
        λ p. found_keeps (OneEach r) p _ _ s o λ found_project _.
          throw_if_keeps (OneEach r) (not (found_project.owner_id == owner)) _ _ s o
            λ _. delete_collaborators-OneEach (λ c. c.user_id == user) s o

-- An operation of the service, by a user.
pub data Call : Type 0 where
  create delete : String → String → Call
  add : String → String → String → Option CollaboratorRole → Call
  remove : String → String → String → Call

pub step : (r : Repositories) → Call → Db r → Db r
step r (create user name) s = (create_project r user name s).1
step r (delete user id) s = (delete_project r user id s).1
step r (add owner project user role) s = (add_collaborator r owner project user role s).1
step r (remove owner project user) s = (remove_collaborator r owner project user s).1

pub run : (r : Repositories) → List Call → Db r → Db r
run r [] s = s
run r (c ∷ cs) s = run r cs (step r c s)

step-OneEach : (r : Repositories) (c : Call) (s : Db r) → OneEach r s → OneEach r (step r c s)
unfolding step
step-OneEach r (create user name) s o = create_project-OneEach r user name s o
step-OneEach r (delete user id) s o = delete_project-OneEach r user id s o
step-OneEach r (add owner project user role) s o =
    add_collaborator-OneEach r owner project user role s o
step-OneEach r (remove owner project user) s o =
    remove_collaborator-OneEach r owner project user s o

-- From a database in which at most one project has each name and each user is a collaborator of
-- each project at most once, every history of the operations that create and delete projects and
-- add and remove collaborators, each run to its end, leads to such a database, also where a check
-- refuses a call or a call of the database fails.
pub projects_stay_unique :
    (r : Repositories) (cs : List Call) (s : Db r) → OneEach r s → OneEach r (run r cs s)
unfolding run
projects_stay_unique r [] s o = o
projects_stay_unique r (c ∷ cs) s o = projects_stay_unique r cs (step r c s) (step-OneEach r c s o)

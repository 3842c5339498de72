-- ===== src/Projects.antt =====
-- src/project/project.service.ts: the operations that change projects and their collaborators. A role
-- that is not given is the column's default, an editor's. What the database deletes with a project is
-- left out. Snapshots, Reads, Activities and Versions have the other methods.
pub mod Invariant
pub mod Guards
pub mod Snapshots
pub mod Reads
pub mod Activities
pub mod Versions
mod Examples
use starsyncbackend.Prelude.{
  ℕ, String, Bool, true, false, not, ◌&&◌, ◌==◌, Option, none, some, is_some, get_or,
}
use starsyncbackend.Effect.{
  Effect, Result, Error, ok, err, forbidden, bad_request, ◌>>=◌, ◌>>◌, pure, throw_if, query, found,
}
use starsyncbackend.Entities.{Project, Collaborator, CollaboratorRole, editor, Repositories, Db}
use starsyncbackend.Permission.{find_project, find_collaborator, can_invite, can_delete}
use starsyncbackend.Invitation.{insert_collaborator}

module _ (r : Repositories) where
  abbrev pub insert_project : (String → ℕ → Project) → Effect (Db r) Project
  insert_project f s = elim (r.projects.insert f s.projects) [
    | ok (t, row) ↦ (ok row, record s { projects = t })
    | err x ↦ (err x, s)
  ]

  abbrev pub delete_projects : (Project → Bool) → Effect (Db r) (Unit {0})
  delete_projects p s = elim (r.projects.delete p s.projects) [
    | ok t ↦ (ok tt, record s { projects = t })
    | err x ↦ (err x, s)
  ]

  abbrev pub delete_collaborators : (Collaborator → Bool) → Effect (Db r) (Unit {0})
  delete_collaborators p s = elim (r.collaborators.delete p s.collaborators) [
    | ok t ↦ (ok tt, record s { collaborators = t })
    | err x ↦ (err x, s)
  ]

  pub new_project : String → String → String → ℕ → Project
  new_project owner_id name id created_at = record {
    id = id;
    owner_id = owner_id;
    name = name;
    notes = "";
  }

  pub create_project : String → String → Effect (Db r) Project
  unfolding new_project
  create_project user_id project_name = do
    p ← query (λ s. r.projects.find_one (λ p. p.name == project_name) s.projects)
    throw_if (is_some p) (bad_request "Project name already exists")
    insert_project (new_project user_id project_name)

  pub delete_project : String → String → Effect (Db r) (Unit {0})
  delete_project user_id id = do
    p ← find_project r id
    found p (bad_request "Project not exist")
    may ← can_delete r user_id id
    throw_if (not may) (forbidden "Only project owner can delete the project")
    delete_projects (λ p. p.id == id)

  pub added_collaborator : String → String → Option CollaboratorRole → String → ℕ → Collaborator
  added_collaborator project_id user_id role id created_at = record {
    id = id;
    project_id = project_id;
    user_id = user_id;
    role = get_or role editor;
  }

  pub add_collaborator :
      String → String → String → Option CollaboratorRole → Effect (Db r) Collaborator
  unfolding added_collaborator
  add_collaborator owner_id project_id user_id role = do
    p ← find_project r project_id
    found p (bad_request "Project not exist")
    may ← can_invite r owner_id project_id
    throw_if (not may) (forbidden "You do not have permission to add collaborators")
    c ← find_collaborator r project_id user_id
    throw_if (is_some c) (bad_request "Already added")
    insert_collaborator r (added_collaborator project_id user_id role)

  pub remove_collaborator : String → String → String → Effect (Db r) (Unit {0})
  remove_collaborator owner_id project_id user_id = do
    p ← find_project r project_id
    project ← found p (bad_request "Project not exist")
    throw_if (not (project.owner_id == owner_id)) (forbidden "Not owner")
    delete_collaborators (λ c. c.user_id == user_id)

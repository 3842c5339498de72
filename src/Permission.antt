-- ===== src/Permission.antt =====
-- src/libs/services/permission.service.ts: what a user may do with a project, by the role there.
pub mod Roles
use starsyncbackend.Prelude.{
  String, Bool, true, false, ◌&&◌, ◌||◌, Option, none, some, ◌==◌, if◌then◌else◌, is_some,
}
use starsyncbackend.Effect.{Effect, Result, ok, err, ◌>>=◌, pure, query}
use starsyncbackend.Entities.{
  User, Project, Collaborator, CollaboratorRole, owner, editor, viewer, commenter, Repositories, Db,
}

-- The tests on a role; `null` is no role.
abbrev pub views : Option CollaboratorRole → Bool
views role = is_some role

abbrev pub edits : Option CollaboratorRole → Bool
edits (some owner) = true
edits (some editor) = true
edits _ = false

abbrev pub comments : Option CollaboratorRole → Bool
comments (some owner) = true
comments (some editor) = true
comments (some commenter) = true
comments (some viewer) = true
comments none = false

abbrev pub deletes : Option CollaboratorRole → Bool
deletes (some owner) = true
deletes _ = false

abbrev role_of : Option Collaborator → Option CollaboratorRole
role_of none = none
role_of (some c) = some c.role

module _ (r : Repositories) where
  abbrev pub find_project : String → Effect (Db r) (Option Project)
  find_project project_id = query (λ s. r.projects.find_one (λ p. p.id == project_id) s.projects)

  abbrev pub find_collaborator : String → String → Effect (Db r) (Option Collaborator)
  find_collaborator project_id user_id = query (λ s.
      r.collaborators.find_one (λ c. c.project_id == project_id && c.user_id == user_id)
        s.collaborators)

  role_in : String → String → Option Project → Effect (Db r) (Option CollaboratorRole)
  role_in user_id project_id none = pure none
  role_in user_id project_id (some project) =
      if project.owner_id == user_id
      then pure (some owner)
      else do c ← find_collaborator project_id user_id; pure (role_of c)

  unfoldable pub get_user_role : String → String → Effect (Db r) (Option CollaboratorRole)
  unfolding role_in
  get_user_role user_id project_id = do
    project ← find_project project_id
    role_in user_id project_id project

  unfoldable pub can_view : String → String → Effect (Db r) Bool
  can_view user_id project_id = do role ← get_user_role user_id project_id; pure (views role)

  unfoldable pub can_edit : String → String → Effect (Db r) Bool
  can_edit user_id project_id = do role ← get_user_role user_id project_id; pure (edits role)

  unfoldable pub can_comment : String → String → Effect (Db r) Bool
  can_comment user_id project_id = do role ← get_user_role user_id project_id; pure (comments role)

  unfoldable pub can_invite : String → String → Effect (Db r) Bool
  can_invite user_id project_id = do role ← get_user_role user_id project_id; pure (edits role)

  unfoldable pub can_delete : String → String → Effect (Db r) Bool
  can_delete user_id project_id = do role ← get_user_role user_id project_id; pure (deletes role)

  unfoldable pub can_manage_collaborators : String → String → Effect (Db r) Bool
  can_manage_collaborators user_id project_id = do
    role ← get_user_role user_id project_id
    pure (edits role)

  unfoldable pub is_project_owner : String → String → Effect (Db r) Bool
  is_project_owner user_id project_id = do
    project ← find_project project_id
    pure (is_owned project)
    where
      is_owned : Option Project → Bool
      is_owned none = false
      is_owned (some p) = p.owner_id == user_id

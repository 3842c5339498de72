-- ===== src/Projects/Reads.antt =====
-- The methods of src/project/project.service.ts that only read: a project with its content, all
-- projects, and the collaborators of one. The times at which rows were made are left out.
use starsyncbackend.Prelude.{
  String, true, not, ◌&&◌, ◌==◌, if◌then◌else◌, List, ◌∷◌, map, Option, none, some, is_some,
}
use starsyncbackend.Json.{Json}
use starsyncbackend.Effect.{
  Effect, Result, bad_request, not_found, forbidden, ◌>>=◌, ◌>>◌, pure, throw_if, query, found,
  each,
}
use starsyncbackend.Entities.{
  User, Project, Collaborator, CollaboratorRole, owner, Repositories, Db,
}
use starsyncbackend.Permission.{find_project, find_collaborator, can_view, get_user_role}
use starsyncbackend.Invitation.{find_user}
use starsyncbackend.Projects.Snapshots.{SnapshotServices, SnapshotDb, on_others, content_of}

pub record ProjectReply : Type 0 where
  pub project : Project
  pub content : Json
  pub role : Option CollaboratorRole

-- `JSON.parse` of a text of Redis, which may throw, is a parameter.
unfoldable pub get_project :
    (v : SnapshotServices)
    → (v.redis.Text → Result Json)
    → String
    → String
    → Effect (SnapshotDb v) ProjectReply
unfolding content_of
get_project v parse user_id project_id = do
  p ← on_others v (find_project v.others project_id)
  project ← found p (bad_request "Project not exist")
  may ← on_others v (can_view v.others user_id project_id)
  throw_if (not may) (forbidden "You don't have permission to view this project")
  role ← on_others v (get_user_role v.others user_id project_id)
  content ← query (λ s. parse (content_of v project_id s.store))
  pure (record { project = project; content = content; role = role })

pub record ProjectListing : Type 0 where
  pub id : String
  pub name : String
  pub owner_id : String

pub record CollaboratorReply : Type 0 where
  pub id : String
  pub user_id : String
  pub username : String
  pub email : String
  pub role : CollaboratorRole

-- `user?.username || user?.email || 'Unknown'` and `user?.email || ''`
unfoldable pub name_or_email : Option User → String
name_or_email none = "Unknown"
name_or_email (some u) =
    if u.username == "" then (if u.email == "" then "Unknown" else u.email) else u.username

abbrev pub email_of : Option User → String
email_of none = ""
email_of (some u) = u.email

module _ (r : Repositories) where
  -- The user who asks is not looked at.
  unfoldable pub get_projects : String → Effect (Db r) (List ProjectListing)
  get_projects user_id = do
    projects ← query (λ s. r.projects.find_many (λ p. true) s.projects)
    pure
        (map (λ (p : Project). record { id = p.id; name = p.name; owner_id = p.owner_id }) projects)

  unfoldable pub collaborator_reply : Collaborator → Effect (Db r) CollaboratorReply
  unfolding name_or_email
  collaborator_reply c = do
    u ← find_user r c.user_id
    pure (record {
      id = c.id;
      user_id = c.user_id;
      username = name_or_email u;
      email = email_of u;
      role = c.role;
    })

  -- The owner comes first, where the owner is a user.
  unfoldable pub with_owner :
      Project → Option User → List CollaboratorReply → List CollaboratorReply
  unfolding name_or_email
  with_owner project none replies = replies
  with_owner project (some u) replies =
      record {
        id = "owner";
        user_id = project.owner_id;
        username = name_or_email (some u);
        email = u.email;
        role = owner;
      }
      ∷ replies

  unfoldable pub get_collaborators : String → String → Effect (Db r) (List CollaboratorReply)
  unfolding collaborator_reply with_owner each
  get_collaborators user_id project_id = do
    p ← find_project r project_id
    project ← found p (not_found "Project not found")
    c ← find_collaborator r project_id user_id
    throw_if (not (project.owner_id == user_id) && not (is_some c))
        (forbidden "You do not have access to this project")
    collaborators ←
        query (λ s. r.collaborators.find_many (λ c. c.project_id == project_id) s.collaborators)
    replies ← each collaborator_reply collaborators
    u ← find_user r project.owner_id
    pure (with_owner project u replies)

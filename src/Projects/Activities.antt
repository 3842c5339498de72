-- ===== src/Projects/Activities.antt =====
-- The activities of src/project/project.service.ts. The order of the feed is the query's.
use starsyncbackend.Prelude.{ℕ, String, not, ◌==◌, if◌then◌else◌, List, Option, none, some}
use starsyncbackend.Json.{Json, null, is_truthy}
use starsyncbackend.Effect.{
  Effect, Result, ok, err, forbidden, ◌>>=◌, ◌>>◌, pure, throw_if, query, each,
}
use starsyncbackend.Database.{Repository}
use starsyncbackend.Entities.{User, Repositories, Db}
use starsyncbackend.Permission.{can_view}
use starsyncbackend.Projects.Snapshots.{creator_name}

pub record ProjectActivity : Type 0 where
  pub id : String
  pub project_id : String
  pub user_id : String
  pub action_type : String
  pub description : Option String
  pub metadata : Option String
  pub created_at : ℕ

-- The repositories, the query of the newest activities of a project with their users, at most as many
-- as the limit, and the texts of JSON values.
pub record ActivityServices : Type 1 where
  pub others : Repositories
  pub activities : Repository ProjectActivity
  pub newest :
      String
      → ℕ
      → activities.Table
      → others.users.Table
      → Result (List (ProjectActivity × Option User))
  pub stringify : Json → String
  pub parse : String → Result Json

pub record ActivityDb (v : ActivityServices) : Type 0 where
  pub others : Db v.others
  pub activities : v.activities.Table

-- An activity of the feed: with the name of its user, and its metadata as a value.
pub record FeedEntry : Type 0 where
  pub id : String
  pub project_id : String
  pub user_id : String
  pub username : String
  pub action_type : String
  pub description : Option String
  pub metadata : Json
  pub created_at : ℕ

module _ (v : ActivityServices) where
  -- `metadata ? JSON.stringify(metadata) : null`
  unfoldable pub metadata_text : Json → Option String
  metadata_text metadata = if is_truthy metadata then some (v.stringify metadata) else none

  abbrev insert_activity : (String → ℕ → ProjectActivity) → Effect (ActivityDb v) ProjectActivity
  insert_activity f s = elim (v.activities.insert f s.activities) [
    | ok (t, row) ↦ (ok row, record s { activities = t })
    | err x ↦ (err x, s)
  ]

  -- A description or metadata that is not given is `null`.
  unfoldable pub log_activity :
      String → String → String → Option String → Json → Effect (ActivityDb v) ProjectActivity
  unfolding metadata_text
  log_activity user_id project_id action_type description metadata = insert_activity (λ id at.
      record {
        id = id;
        project_id = project_id;
        user_id = user_id;
        action_type = action_type;
        description = description;
        metadata = metadata_text metadata;
        created_at = at;
      })

  -- `activity.metadata ? JSON.parse(activity.metadata) : null`, where parsing may throw.
  unfoldable pub metadata_value : Option String → Result Json
  metadata_value none = ok null
  metadata_value (some text) = if text == "" then ok null else v.parse text

  unfoldable pub feed_entry : ProjectActivity × Option User → Effect (ActivityDb v) FeedEntry
  unfolding metadata_value creator_name
  feed_entry (activity, user) = do
    metadata ← query (λ s. metadata_value activity.metadata)
    pure (record {
      id = activity.id;
      project_id = activity.project_id;
      user_id = activity.user_id;
      username = creator_name user;
      action_type = activity.action_type;
      description = activity.description;
      metadata = metadata;
      created_at = activity.created_at;
    })

  unfoldable pub get_activity_feed : String → String → ℕ → Effect (ActivityDb v) (List FeedEntry)
  unfolding feed_entry each
  get_activity_feed user_id project_id limit = do
    may ← (λ s.
        let (x, t) = can_view v.others user_id project_id s.others in (x, record s { others = t }))
    throw_if (not may) (forbidden "You don't have permission to view activity for this project")
    rows ← query (λ s. v.newest project_id limit s.activities s.others.users)
    each feed_entry rows

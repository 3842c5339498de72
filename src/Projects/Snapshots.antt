-- ===== src/Projects/Snapshots.antt =====
-- The snapshots of src/project/project.service.ts: rows of the database that hold the content that a
-- project has in Redis. Calls of Redis succeed, and the order in which getSnapshots sorts is left out.
pub mod Restored
mod Examples
use Prim.Native.String.{◌++◌ as concat}
use starsyncbackend.Prelude.{
  ℕ, String, Bool, true, false, not, ◌&&◌, ◌==◌, if◌then◌else◌, List, [], ◌∷◌, Option, none, some,
  ◌≡◌,
}
use starsyncbackend.Effect.{
  Effect, ok, err, not_found, forbidden, ◌>>=◌, ◌>>◌, pure, throw_if, query, found,
}
use starsyncbackend.Database.{Repository}
use starsyncbackend.Entities.{User, Repositories, Db}
use starsyncbackend.RedisService.{RedisClient, get_item, set_item, get_content_key}
use starsyncbackend.Permission.{find_project, can_view, can_edit}

pub record ProjectSnapshot (Text : Type 0) : Type 0 where
  pub id : String
  pub project_id : String
  pub snapshot_data : Text
  pub description : Option String
  pub created_by : String
  pub created_at : ℕ

-- The repositories, the client of Redis, and of its texts which is not empty and which are the same.
pub record SnapshotServices : Type 1 where
  pub others : Repositories
  pub redis : RedisClient
  pub is_nonempty : redis.Text → Bool
  pub same : redis.Text → redis.Text → Bool
  pub same_refl : (t : redis.Text) → same t t ≡ true
  pub same_sound : (t u : redis.Text) → same t u ≡ true → t ≡ u
  pub snapshots : Repository (ProjectSnapshot redis.Text)

pub record SnapshotDb (v : SnapshotServices) : Type 0 where
  pub others : Db v.others
  pub snapshots : v.snapshots.Table
  pub store : v.redis.Store

-- `description || null`
unfoldable pub description_or_null : Option String → Option String
description_or_null none = none
description_or_null (some d) = if d == "" then none else some d

-- `creator?.username || 'Unknown'`
unfoldable pub creator_name : Option User → String
creator_name none = "Unknown"
creator_name (some u) = if u.username == "" then "Unknown" else u.username

module _ (v : SnapshotServices) where
  abbrev pub Row : Type 0
  Row = ProjectSnapshot v.redis.Text

  -- A call of another service on its part of the state.
  abbrev pub on_others : {A : Type 0} → Effect (Db v.others) A → Effect (SnapshotDb v) A
  on_others m s = let (r, t) = m s.others in (r, record s { others = t })

  abbrev pub insert_snapshot : (String → ℕ → Row) → Effect (SnapshotDb v) Row
  insert_snapshot f s = elim (v.snapshots.insert f s.snapshots) [
    | ok (t, row) ↦ (ok row, record s { snapshots = t })
    | err x ↦ (err x, s)
  ]

  -- `(await getItem(contentKey)) || '[]'`
  unfoldable pub content_of : String → v.redis.Store → v.redis.Text
  content_of project store = elim (get_item v.redis (get_content_key project) store) [
    | none ↦ v.redis.empty_array
    | some text ↦ if v.is_nonempty text then text else v.redis.empty_array
  ]

  abbrev pub write_content : String → v.redis.Text → Effect (SnapshotDb v) (Unit {0})
  write_content project text s =
      (ok tt, record s { store = set_item v.redis (get_content_key project) text s.store })

  abbrev pub new_snapshot : String → String → v.redis.Text → Option String → String → ℕ → Row
  new_snapshot user_id project_id content description id at = record {
    id = id;
    project_id = project_id;
    snapshot_data = content;
    description = description;
    created_by = user_id;
    created_at = at;
  }

  unfoldable pub create_snapshot : String → String → Option String → Effect (SnapshotDb v) Row
  unfolding content_of description_or_null
  create_snapshot user_id project_id description = do
    may ← on_others (can_view v.others user_id project_id)
    throw_if (not may) (forbidden "You don't have permission to create snapshots for this project")
    p ← on_others (find_project v.others project_id)
    found p (not_found "Project not found")
    content ← query (λ s. ok (content_of project_id s.store))
    insert_snapshot (new_snapshot user_id project_id content (description_or_null description))

  pub record NamedSnapshot : Type 0 where
    pub snapshot : Row
    pub created_by_username : String

  -- `Promise.all` over the queries of the creators, which only read.
  unfoldable pub with_usernames : List Row → Effect (SnapshotDb v) (List NamedSnapshot)
  unfolding creator_name
  with_usernames [] = pure []
  with_usernames (row ∷ rows) = do
    creator ← query (λ s. v.others.users.find_one (λ u. u.id == row.created_by) s.others.users)
    rest ← with_usernames rows
    pure (record { snapshot = row; created_by_username = creator_name creator } ∷ rest)

  unfoldable pub get_snapshots : String → String → Effect (SnapshotDb v) (List NamedSnapshot)
  unfolding with_usernames
  get_snapshots user_id project_id = do
    may ← on_others (can_view v.others user_id project_id)
    throw_if (not may) (forbidden "You don't have permission to view snapshots for this project")
    rows ← query (λ s. v.snapshots.find_many (λ x. x.project_id == project_id) s.snapshots)
    with_usernames rows

  -- `now` is the time as `toISOString` writes it. A call that returns is a success.
  unfoldable pub restore_snapshot :
      String → String → String → String → Effect (SnapshotDb v) (Unit {0})
  unfolding content_of
  restore_snapshot now user_id project_id snapshot_id = do
    may ← on_others (can_edit v.others user_id project_id)
    throw_if (not may) (forbidden "You don't have permission to restore snapshots for this project")
    o ← query (λ s.
        v.snapshots.find_one (λ x. x.id == snapshot_id && x.project_id == project_id) s.snapshots)
    snapshot ← found o (not_found "Snapshot not found")
    content ← query (λ s. ok (content_of project_id s.store))
    insert_snapshot (
        new_snapshot user_id project_id content
          (some (concat "Auto-backup before restore (" (concat now ")"))))
    write_content project_id snapshot.snapshot_data

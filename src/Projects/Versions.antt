-- ===== src/Projects/Versions.antt =====
-- The guarded calls of the version tracker in src/project/project.service.ts.
use starsyncbackend.Prelude.{ℕ, String, Bool, not, List, Option, none, some}
use starsyncbackend.Effect.{
  Effect, err, database, ok, not_found, forbidden, ◌>>=◌, ◌>>◌, throw_if, found,
}
use starsyncbackend.Entities.{Repositories, Db}
use starsyncbackend.RedisService.{RedisClient, ArrayText}
use starsyncbackend.Permission.{can_view, can_edit}
use starsyncbackend.Invitation.{find_user}
use starsyncbackend.Projects.Reads.{name_or_email}
use starsyncbackend.VersionTracker
use starsyncbackend.VersionTracker.{VersionEntry, Actor, ValueText, Tracker}

module _ (r : Repositories) (c : RedisClient) (entries : ValueText c (VersionEntry c.Text))
    (ids : ArrayText c String) where
  pub record VersionDb : Type 0 where
    pub others : Db r
    pub tracker : Tracker c entries ids

  abbrev on_others : {A : Type 0} → Effect (Db r) A → Effect VersionDb A
  on_others m s = let (x, t) = m s.others in (x, record s { others = t })

  -- A call of the tracker; what it throws is no error of the service's own.
  abbrev on_tracker :
      {A : Type 0} → (Tracker c entries ids → Tracker c entries ids × Option A) → Effect VersionDb A
  on_tracker f s =
      let (t, answer) = f s.tracker in
      (elim answer [ none ↦ err database | some a ↦ ok a ], record s { tracker = t })

  unfoldable pub get_version_history :
      String → String → ℕ → Effect VersionDb (List (VersionEntry c.Text))
  get_version_history user_id project_id limit = do
    may ← on_others (can_view r user_id project_id)
    throw_if (not may)
        (forbidden "You don't have permission to view version history for this project")
    on_tracker (VersionTracker.get_version_history c entries ids project_id limit)

  unfoldable pub get_version : String → String → String → Effect VersionDb (VersionEntry c.Text)
  get_version user_id project_id version_id = do
    may ← on_others (can_view r user_id project_id)
    throw_if (not may) (forbidden "You don't have permission to view versions for this project")
    version ← on_tracker (VersionTracker.get_version c entries ids project_id version_id)
    found version (not_found "Version not found")

  -- `now` and `new_id` are for the version that the tracker adds. The answer is the `success` of it.
  unfoldable pub restore_to_version :
      (ℕ → String) → ℕ → String → String → String → String → Effect VersionDb Bool
  unfolding name_or_email
  restore_to_version to_text now new_id user_id project_id version_id = do
    may ← on_others (can_edit r user_id project_id)
    throw_if (not may) (forbidden "You don't have permission to restore versions for this project")
    u ← on_others (find_user r user_id)
    on_tracker (
        VersionTracker.restore_to_version c entries ids to_text project_id version_id
          (record { user_id = user_id; username = name_or_email u; now = now; new_id = new_id }))

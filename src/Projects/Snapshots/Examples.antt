-- ===== src/Projects/Snapshots/Examples.antt =====
-- A snapshot of src/project/project.service.ts that is restored after the content has changed.
use starsyncbackend.Prelude.{String, not, List, [], ◌∷◌, none, some, ◌==◌, refl, eq_iff, eq_refl}
use starsyncbackend.JsMap
use starsyncbackend.JsMap.{get-set, get-delete}
use starsyncbackend.RedisService.{RedisClient, get_content_key}
use starsyncbackend.Database.InMemory.{in_memory}
use starsyncbackend.Entities.{Db}
use starsyncbackend.Entities.Sample.{repositories, user}
use starsyncbackend.Permission.{can_view, can_edit, get_user_role}
use starsyncbackend.Projects.Snapshots.{
  ProjectSnapshot, SnapshotServices, SnapshotDb, content_of, description_or_null, create_snapshot,
  restore_snapshot,
}
use starsyncbackend.Projects.Snapshots.Restored.{Restored, restore_created}

abbrev redis : RedisClient
redis = record {
  Store = List (String × String);
  Text = String;
  empty_array = "[]";
  get = JsMap.get;
  set = JsMap.set;
  del = JsMap.delete;
  get-set = λ k j v s. get-set k j v s;
  get-del = λ k j s. get-delete k j s;
}

unfoldable services : SnapshotServices
unfolding in_memory
services = record {
  others = repositories;
  redis = redis;
  is_nonempty = λ t. not (t == "");
  same = λ t u. t == u;
  same_refl = eq_refl;
  same_sound = λ t u. (eq_iff t u).0;
  snapshots = in_memory (λ (x : ProjectSnapshot String). x.id);
}

unfoldable database : Db repositories
unfolding in_memory repositories
database = record {
  users = user "alice" ∷ [];
  projects = record { id = "song"; owner_id = "alice"; name = "Song"; notes = "" } ∷ [];
  collaborators = [];
  invitations = [];
  friends = [];
  friend_requests = [];
  notices = [];
}

unfoldable before : SnapshotDb services
unfolding services in_memory
before = record { others = database; snapshots = []; store = (get_content_key "song", "[1]") ∷ [] }

abbrev snapshot : ProjectSnapshot String
snapshot = record {
  id = "id";
  project_id = "song";
  snapshot_data = "[1]";
  description = none;
  created_by = "alice";
  created_at = 0;
}

-- The snapshot is there, and the content is another.
unfoldable changed : SnapshotDb services
unfolding services in_memory
changed = record {
  others = database;
  snapshots = snapshot ∷ [];
  store = (get_content_key "song", "[1,2]") ∷ [];
}

restore_created_example :
    Restored services "alice" "song"
      (content_of services "song" before.store)
      changed
      (restore_snapshot services "noon" "alice" "song" "id" changed).1
unfolding services before changed database repositories in_memory create_snapshot restore_snapshot
    can_view can_edit get_user_role content_of description_or_null get_content_key JsMap.get
restore_created_example =
    restore_created services "alice" "alice" "song" "noon" (some "") before changed snapshot refl
      refl refl refl

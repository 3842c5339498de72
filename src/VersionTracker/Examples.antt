-- ===== src/VersionTracker/Examples.antt =====
-- Runs of src/project/version-tracker.service.ts: a project, a snapshot and a change.
use starsyncbackend.Prelude.{
  ◌≤◌, String, true, false, ◌==◌, List, [], ◌∷◌, length, Option, none, some, ◌≡◌, ◌⊎◌, refl,
}
use starsyncbackend.Json.{null}
use starsyncbackend.JsMap
use starsyncbackend.JsMap.{get-set, get-delete}
use starsyncbackend.RedisService.{
  ParsedArray, unreadable, no_array, items, RedisClient, ArrayText, get_content_key, get_item,
}
use starsyncbackend.VersionTracker.{
  VersionEntry, Actor, ValueText, Tracker, history_of, track_change, create_snapshot_version,
  restore_to_version, find_version, get_current_version_number,
}
use starsyncbackend.VersionTracker.Numbers.{IsNumbered}
use starsyncbackend.VersionTracker.History.{track, snapshot, look, run, run-IsNumbered}
use starsyncbackend.VersionTracker.Size.{track_change_bound}
use starsyncbackend.VersionTracker.Restore.{Ends, saved_text, restore_to_snapshot}

-- The texts of a store: a version without its full state, or with it.
data StoredText : Type 0 where
  brackets braces : StoredText
  content_text : String → StoredText
  id_list : List String → StoredText
  change : VersionEntry (Unit {0}) → StoredText
  shot : VersionEntry (Unit {0}) → StoredText → StoredText

abbrev fill : {A B : Type 0} → VersionEntry A → Option B → VersionEntry B
fill a full_state = record {
  version_id = a.version_id;
  project_id = a.project_id;
  version_number = a.version_number;
  timestamp = a.timestamp;
  user_id = a.user_id;
  username = a.username;
  action_type = a.action_type;
  description = a.description;
  changes = a.changes;
  full_state = full_state;
}

abbrev read_version : StoredText → Option (VersionEntry StoredText)
read_version (change a) = some (fill a none)
read_version (shot a text) = some (fill a (some text))
read_version _ = none

abbrev write_state : VersionEntry (Unit {0}) → Option StoredText → StoredText
write_state a none = change a
write_state a (some text) = shot a text

read-write_state :
    (a : VersionEntry (Unit {0})) (o : Option StoredText)
    → read_version (write_state a o) ≡ some (fill a o)
read-write_state a none = refl
read-write_state a (some text) = refl

abbrev read_ids : StoredText → ParsedArray StoredText String
read_ids brackets = items []
read_ids braces = no_array braces
read_ids (id_list xs) = items xs
read_ids _ = unreadable

abbrev redis : RedisClient
redis = record {
  Store = List (String × StoredText);
  Text = StoredText;
  empty_array = brackets;
  get = JsMap.get;
  set = JsMap.set;
  del = JsMap.delete;
  get-set = λ k j v s. get-set k j v s;
  get-del = λ k j s. get-delete k j s;
}

abbrev versions : ValueText redis (VersionEntry StoredText)
versions = record {
  read = read_version;
  write = λ a. write_state (fill a none) a.full_state;
  empty_object = braces;
  is_nonempty = λ t. true;
  read-write = λ a. read-write_state (fill a none) a.full_state;
  empty_object-nonempty = refl;
}

abbrev id_array : ArrayText redis String
id_array = record { read = read_ids; write = id_list; read-write = λ xs. refl; read-empty = refl }

abbrev empty : Tracker redis versions id_array
empty = record {
  version_history = [];
  current_version_numbers = [];
  redis = (get_content_key "song", content_text "notes") ∷ [];
  snapshots = [];
}

abbrev alice : String → Actor
alice id = record { user_id = "alice"; username = "alice"; now = 5; new_id = id }

empty-IsNumbered : IsNumbered redis versions id_array empty
unfolding JsMap.get get_current_version_number
empty-IsNumbered = record { at_project = λ p. (tt, tt) }

run-IsNumbered_example : IsNumbered redis versions id_array (
    run redis versions id_array
      (snapshot "song" (alice "v1") ""
        ∷ track "song" (alice "v2") "edit" null ""
        ∷ look "other" "v1"
        ∷ [])
      empty)
run-IsNumbered_example =
    run-IsNumbered redis versions id_array
      (snapshot "song" (alice "v1") ""
        ∷ track "song" (alice "v2") "edit" null ""
        ∷ look "other" "v1"
        ∷ [])
      empty empty-IsNumbered

track_change_bound_example :
    let n = length (
      history_of redis versions id_array "song"
        (track_change redis versions id_array "song" (alice "v1") "edit" null "" empty).0) in
    (n ≤ 100) ⊎ (n ≤ length (history_of redis versions id_array "song" empty))
track_change_bound_example =
    track_change_bound redis versions id_array "song" (alice "v1") "edit" null "" empty "song"

v1_fresh :
    find_version redis versions id_array "v1" (history_of redis versions id_array "song" empty)
    ≡ none
unfolding find_version JsMap.get
v1_fresh = refl

restore_to_snapshot_example :
    let t =
      record (create_snapshot_version redis versions id_array "song" (alice "v1") "" empty).0 {
        redis = [];
      } in
    let r = restore_to_version redis versions id_array (λ n. "1") "song" "v1" (alice "v2") t in
    Ends redis versions id_array "song" r
    × (get_item redis (get_content_key "song") r.0.redis
        ≡ some (
            saved_text redis versions id_array
              (get_item redis (get_content_key "song") empty.redis)))
    × ((q : String)
        → (get_content_key "song" == get_content_key q) ≡ false
        → get_item redis (get_content_key q) r.0.redis ≡ get_item redis (get_content_key q) [])
restore_to_snapshot_example =
    restore_to_snapshot redis versions id_array (λ n. "1") "song" (alice "v1") (alice "v2") "" empty
      [] v1_fresh

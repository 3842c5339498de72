-- ===== src/VersionTracker.antt =====
-- src/project/version-tracker.service.ts: the versions of each project, in memory and in Redis. The id
-- that `generateVersionId` makes of the clock and a random number is an argument, as is the time. The
-- snapshot that is also saved to the database is recorded with the state.
pub mod Numbers
pub mod History
pub mod Size
pub mod Restore
mod Examples
use Prim.Native.String.{◌++◌ as concat}
use starsyncbackend.Prelude.{
  ℕ, zero, suc, ◌+◌, ◌-◌, String, Bool, true, false, ◌==◌, if◌then◌else◌, List, [], ◌∷◌, ◌++◌,
  reverse, length, drop, Option, none, some, get_or, ltb, leb, is_some, ◌≡◌,
}
use starsyncbackend.Prelude.Int.{pos}
use starsyncbackend.Json.{Json, obj, str, num, field, end}
use starsyncbackend.JsMap
use starsyncbackend.RedisService.{
  RedisClient, ArrayText, unreadable, no_array, items, stored_at, pushed, set_item, get_item,
  get_content_key,
}

pub record VersionEntry (Text : Type 0) : Type 0 where
  pub version_id : String
  pub project_id : String
  pub version_number : ℕ
  pub timestamp : ℕ
  pub user_id : String
  pub username : String
  pub action_type : String
  pub description : String
  pub changes : Json
  pub full_state : Option Text

pub record Snapshot (Text : Type 0) : Type 0 where
  pub project_id : String
  pub snapshot_data : Text
  pub description : String
  pub created_by : String

-- Who acts, when, and the id that a new version gets.
pub record Actor : Type 0 where
  pub user_id : String
  pub username : String
  pub now : ℕ
  pub new_id : String

abbrev pub max_versions_per_project : ℕ
max_versions_per_project = 100

-- The texts of single values, `'{}'` among them, and which text is not empty; `read` is `none` where
-- `JSON.parse` throws.
pub record ValueText (c : RedisClient) (A : Type 0) : Type 0 where
  pub read : c.Text → Option A
  pub write : A → c.Text
  pub empty_object : c.Text
  pub is_nonempty : c.Text → Bool
  pub read-write : (a : A) → read (write a) ≡ some a
  pub empty_object-nonempty : is_nonempty empty_object ≡ true

module _ (c : RedisClient) (entries : ValueText c (VersionEntry c.Text))
    (ids : ArrayText c String) where
  pub record Tracker : Type 0 where
    pub version_history : List (String × List (VersionEntry c.Text))
    pub current_version_numbers : List (String × ℕ)
    pub redis : c.Store
    pub snapshots : List (Snapshot c.Text)

  abbrev pub Entry : Type 0
  Entry = VersionEntry c.Text

  abbrev pub history_of : String → Tracker → List Entry
  history_of project s = get_or (JsMap.get project s.version_history) []

  pub get_current_version_number : String → Tracker → ℕ
  get_current_version_number project s = get_or (JsMap.get project s.current_version_numbers) 0

  pub version_key : String → String → String
  version_key project id = concat "version:" (concat project (concat ":" id))

  pub version_list_key : String → String
  version_list_key project = concat "version:list:" project

  -- The store, and whether it returned: it throws where the list of versions is no array.
  pub store_version_in_redis : String → Entry → c.Store → c.Store × Bool
  unfolding version_key version_list_key
  store_version_in_redis project version s =
      let s' = set_item c (version_key project version.version_id) (entries.write version) s in
      elim (pushed c ids version.version_id (get_item c (version_list_key project) s')) [
        | none ↦ (s', false)
        | some text ↦ (set_item c (version_list_key project) text s', true)
      ]

  -- The oldest version is dropped where there are more than the limit.
  pub limit_size : List Entry → List Entry
  limit_size [] = []
  limit_size (x ∷ xs) = if ltb max_versions_per_project (length (x ∷ xs)) then xs else x ∷ xs

  -- `if (!has) ...`: a project that has no history gets an empty one and the number 0.
  pub initialised : String → Tracker → Tracker
  initialised project s = if is_some (JsMap.get project s.version_history) then s else record s {
    version_history = JsMap.set project [] s.version_history;
    current_version_numbers = JsMap.set project 0 s.current_version_numbers;
  }

  pub new_version : String → Actor → String → String → Json → Option c.Text → ℕ → Entry
  new_version project actor action_type description changes full_state version_number = record {
    version_id = actor.new_id;
    project_id = project;
    version_number = version_number;
    timestamp = actor.now;
    user_id = actor.user_id;
    username = actor.username;
    action_type = action_type;
    description = description;
    changes = changes;
    full_state = full_state;
  }

  -- The state, and whether the call returned.
  pub track_change : String → Actor → String → Json → String → Tracker → Tracker × Bool
  unfolding initialised new_version limit_size get_current_version_number store_version_in_redis
  track_change project actor action_type changes description s =
      let s' = initialised project s in
      let number = suc (get_current_version_number project s') in
      let entry = new_version project actor action_type description changes none number in
      let (store, returned) = store_version_in_redis project entry s'.redis in
      (
        record s' {
          version_history =
              JsMap.set project (limit_size (history_of project s' ++ entry ∷ []))
                s'.version_history;
          current_version_numbers = JsMap.set project number s'.current_version_numbers;
          redis = store;
        },
        returned,
      )

  -- `(await getItem(contentKey)) || '{}'`
  pub full_state_of : String → Tracker → c.Text
  full_state_of project s = elim (get_item c (get_content_key project) s.redis) [
    | none ↦ entries.empty_object
    | some text ↦ if entries.is_nonempty text then text else entries.empty_object
  ]

  pub create_snapshot_version : String → Actor → String → Tracker → Tracker × Bool
  unfolding initialised new_version get_current_version_number store_version_in_redis full_state_of
  create_snapshot_version project actor description s =
      let full_state = full_state_of project s in
      let s' = initialised project s in
      let number = suc (get_current_version_number project s') in
      let text = if description == "" then "Manual snapshot" else description in
      let entry = new_version project actor "snapshot" text (obj end) (some full_state) number in
      let (store, returned) = store_version_in_redis project entry s'.redis in
      (
        record s' {
          version_history =
              JsMap.set project (history_of project s' ++ entry ∷ []) s'.version_history;
          current_version_numbers = JsMap.set project number s'.current_version_numbers;
          redis = store;
          snapshots =
              if returned
              then record {
                project_id = project;
                snapshot_data = full_state;
                description = description;
                created_by = actor.user_id;
              }
                ∷ s'.snapshots
              else s'.snapshots;
        },
        returned,
      )

  -- The loop of `loadVersionHistoryFromRedis`; an entry that is not there is skipped, and one that
  -- is no JSON makes it throw.
  pub load_entries : String → List String → c.Store → Option (List Entry)
  unfolding version_key
  load_entries project [] s = some []
  load_entries project (id ∷ rest) s =
      let others = load_entries project rest s in
      elim (get_item c (version_key project id) s) [
        | none ↦ others
        | some text ↦
            if entries.is_nonempty text
            then elim (entries.read text) [
              | none ↦ none
              | some version ↦ elim others [ none ↦ none | some xs ↦ some (version ∷ xs) ]
            ]
            else others
      ]

  -- `history.sort((a, b) => a.versionNumber - b.versionNumber)`, which is stable.
  pub insert_version : Entry → List Entry → List Entry
  insert_version x [] = x ∷ []
  insert_version x (y ∷ ys) =
      if leb x.version_number y.version_number then x ∷ y ∷ ys else y ∷ insert_version x ys

  pub sort_versions : List Entry → List Entry
  unfolding insert_version
  sort_versions [] = []
  sort_versions (x ∷ xs) = insert_version x (sort_versions xs)

  -- `Math.max`, of no number 0.
  pub max_number : List Entry → ℕ
  max_number [] = 0
  max_number (x ∷ xs) =
      if leb (max_number xs) x.version_number then x.version_number else max_number xs

  -- The entries that are loaded, or a throw.
  pub read_entries : String → Tracker → Option (List Entry)
  unfolding load_entries version_list_key
  read_entries project s = elim (stored_at c ids (version_list_key project) s.redis) [
    | unreadable ↦ none
    | no_array text ↦ none
    | items xs ↦ load_entries project xs s.redis
  ]

  -- The state, and whether the call returned.
  pub load_version_history : String → Tracker → Tracker × Bool
  unfolding read_entries sort_versions max_number
  load_version_history project s = elim (read_entries project s) [
    | none ↦ (s, false)
    | some loaded ↦
        let history = sort_versions loaded in
        (
          record s {
            version_history = JsMap.set project history s.version_history;
            current_version_numbers =
                JsMap.set project (max_number history) s.current_version_numbers;
          },
          true,
        )
  ]

  pub loaded : String → Tracker → Tracker × Bool
  unfolding load_version_history
  loaded project s =
      if is_some (JsMap.get project s.version_history)
      then (s, true)
      else load_version_history project s

  -- `slice(-limit)`; a limit of 0 is no limit.
  slice_last : ℕ → List Entry → List Entry
  slice_last zero xs = xs
  slice_last (suc limit) xs = drop (length xs - suc limit) xs

  -- The answer of a call is `none` where it throws.
  pub get_version_history : String → ℕ → Tracker → Tracker × Option (List Entry)
  unfolding loaded slice_last
  get_version_history project limit s =
      let (s', returned) = loaded project s in
      (s', if returned then some (reverse (slice_last limit (history_of project s'))) else none)

  pub find_version : String → List Entry → Option Entry
  find_version id [] = none
  find_version id (x ∷ xs) = if x.version_id == id then some x else find_version id xs

  pub get_version : String → String → Tracker → Tracker × Option (Option Entry)
  unfolding loaded find_version
  get_version project id s =
      let (s', returned) = loaded project s in
      (s', if returned then some (find_version id (history_of project s')) else none)

  pub record VersionDiff : Type 0 where
    pub from_version : ℕ
    pub to_version : ℕ
    pub from_timestamp : ℕ
    pub to_timestamp : ℕ
    pub added : Json
    pub removed : Json

  version_diff : Option Entry → Option Entry → Option VersionDiff
  version_diff (some source) (some target) = some (record {
    from_version = source.version_number;
    to_version = target.version_number;
    from_timestamp = source.timestamp;
    to_timestamp = target.timestamp;
    added = target.changes;
    removed = source.changes;
  })
  version_diff _ _ = none

  pub get_version_diff : String → String → String → Tracker → Tracker × Option (Option VersionDiff)
  unfolding get_version version_diff
  get_version_diff project from_id to_id s =
      let (s1, first) = get_version project from_id s in
      elim first [
        | none ↦ (s1, none)
        | some source ↦
            let (s2, second) = get_version project to_id s1 in
            (s2, elim second [ none ↦ none | some target ↦ some (version_diff source target) ])
      ]

  restored : Entry → Json
  restored version = obj (
      field "restoredToVersion" (str version.version_id)
        (field "restoredToVersionNumber" (num (pos version.version_number)) end))

  -- The end of `restoreToVersion`: the content is written, and the restoring is tracked.
  pub finish_restore :
      (ℕ → String) → String → Entry → c.Text → Actor → Tracker → Tracker × Option Bool
  unfolding track_change restored
  finish_restore to_text project version text actor s =
      let (t, returned) =
        track_change project actor "restore" (restored version)
          (concat "Restored to version " (to_text version.version_number))
          (record s { redis = set_item c (get_content_key project) text s.redis }) in
      (t, if returned then some true else none)

  -- `restoreToVersion`, after the version was looked up.
  pub restore_from :
      (ℕ → String) → String → Actor → Tracker × Option (Option Entry) → Tracker × Option Bool
  unfolding finish_restore
  restore_from to_text project actor (s, none) = (s, none)
  restore_from to_text project actor (s, some none) = (s, some false)
  restore_from to_text project actor (s, some (some version)) = elim version.full_state [
    | none ↦ (s, some false)
    | some text ↦
        if entries.is_nonempty text
        then finish_restore to_text project version text actor s
        else (s, some false)
  ]

  -- `restoreToVersion`; the text of a number in the description is a parameter.
  pub restore_to_version : (ℕ → String) → String → String → Actor → Tracker → Tracker × Option Bool
  unfolding get_version restore_from
  restore_to_version to_text project id actor s =
      restore_from to_text project actor (get_version project id s)

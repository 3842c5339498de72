-- ===== src/VersionTracker/History.antt =====
-- Histories of calls of src/project/version-tracker.service.ts, and the numbers of the versions.
use starsyncbackend.Prelude.{Option-cases, inl, inr, ℕ, String, List, [], ◌∷◌}
use starsyncbackend.Json.{Json}
use starsyncbackend.RedisService.{RedisClient, ArrayText}
use starsyncbackend.VersionTracker.{
  VersionEntry, Actor, ValueText, Tracker, track_change, create_snapshot_version,
  get_version_history, get_version, restore_to_version, get_version_diff,
}
use starsyncbackend.VersionTracker.Numbers.{
  IsNumbered, track_change-IsNumbered, create_snapshot_version-IsNumbered, loaded-IsNumbered,
  get_version-IsNumbered, restore_to_version-IsNumbered,
}

-- A call of the service.
pub data Call : Type 0 where
  track : String → Actor → String → Json → String → Call
  snapshot : String → Actor → String → Call
  list_versions : String → ℕ → Call
  look : String → String → Call
  compare : String → String → String → Call
  restore : (ℕ → String) → String → String → Actor → Call

module _ (c : RedisClient) (entries : ValueText c (VersionEntry c.Text))
    (ids : ArrayText c String) where
  pub step : Call → Tracker c entries ids → Tracker c entries ids
  step (track project actor kind changes text) s =
      (track_change c entries ids project actor kind changes text s).0
  step (snapshot project actor text) s =
      (create_snapshot_version c entries ids project actor text s).0
  step (list_versions project limit) s = (get_version_history c entries ids project limit s).0
  step (look project id) s = (get_version c entries ids project id s).0
  step (compare project from_id to_id) s =
      (get_version_diff c entries ids project from_id to_id s).0
  step (restore to_text project id actor) s =
      (restore_to_version c entries ids to_text project id actor s).0

  pub run : List Call → Tracker c entries ids → Tracker c entries ids
  run [] s = s
  run (k ∷ ks) s = run ks (step k s)

  diff-IsNumbered :
      (project from_id to_id : String) (s : Tracker c entries ids)
      → IsNumbered c entries ids s
      → IsNumbered c entries ids (get_version_diff c entries ids project from_id to_id s).0
  unfolding get_version_diff
  diff-IsNumbered project from_id to_id s i =
      let first = get_version-IsNumbered c entries ids project from_id s i in
      elim (Option-cases (get_version c entries ids project from_id s).1) [
        | inl n ↦ rw (n, get_version_diff) first
        | inr (o, n) ↦
            rw (n, get_version_diff) (get_version-IsNumbered c entries ids project to_id _ first)
      ]

  step-IsNumbered :
      (k : Call) (s : Tracker c entries ids)
      → IsNumbered c entries ids s
      → IsNumbered c entries ids (step k s)
  unfolding step get_version_history get_version_diff get_version
  step-IsNumbered (track project actor kind changes text) s i =
      track_change-IsNumbered c entries ids project actor kind changes text s i
  step-IsNumbered (snapshot project actor text) s i =
      create_snapshot_version-IsNumbered c entries ids project actor text s i
  step-IsNumbered (list_versions project limit) s i = loaded-IsNumbered c entries ids project s i
  step-IsNumbered (look project id) s i = loaded-IsNumbered c entries ids project s i
  step-IsNumbered (compare project from_id to_id) s i = diff-IsNumbered project from_id to_id s i
  step-IsNumbered (restore to_text project id actor) s i =
      restore_to_version-IsNumbered c entries ids to_text project id actor s i

  -- From a state in which the versions of every project in memory stand in ascending order of their
  -- numbers, none above the project's current number, every history of calls of the version
  -- tracker, each run to its end, leads to such a state, whatever is stored in Redis.
  pub run-IsNumbered :
      (ks : List Call) (s : Tracker c entries ids)
      → IsNumbered c entries ids s
      → IsNumbered c entries ids (run ks s)
  unfolding run
  run-IsNumbered [] s i = i
  run-IsNumbered (k ∷ ks) s i = run-IsNumbered ks (step k s) (step-IsNumbered k s i)

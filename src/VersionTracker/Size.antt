-- ===== src/VersionTracker/Size.antt =====
-- How many versions of a project src/project/version-tracker.service.ts keeps in memory.
use starsyncbackend.Prelude.{
  suc, ◌+◌, ◌≤◌, String, ◌==◌, if◌then◌else◌, List, [], ◌∷◌, ◌++◌, length, none, some, ◌≡◌, ◌⊎◌,
  arith, eq_iff, eq_refl, length-append,
}
use starsyncbackend.Json.{Json, obj, end}
use starsyncbackend.JsMap.{get-set}
use starsyncbackend.RedisService.{RedisClient, ArrayText}
use starsyncbackend.VersionTracker.{
  VersionEntry, Actor, ValueText, Tracker, history_of, get_current_version_number, initialised,
  new_version, limit_size, track_change, create_snapshot_version, full_state_of,
}

module _ (c : RedisClient) (entries : ValueText c (VersionEntry c.Text))
    (ids : ArrayText c String) where
  pub initialised_lem :
      (project q : String) (s : Tracker c entries ids)
      → history_of c entries ids q (initialised c entries ids project s)
        ≡ history_of c entries ids q s
  unfolding initialised
  initialised_lem project q s =
      ground (arith, get-set project q [] s.version_history, eq_iff project q)

  limit_size_lem :
      (xs : List (VersionEntry c.Text)) (e : VersionEntry c.Text)
      → (length (limit_size c entries ids (xs ++ e ∷ [])) ≤ 100)
        ⊎ (length (limit_size c entries ids (xs ++ e ∷ [])) ≤ length xs)
  unfolding limit_size
  limit_size_lem [] e = ground arith
  limit_size_lem (x ∷ xs) e = ground (arith, length-append xs (e ∷ []))

  -- Tracking a change keeps each project within the limit of 100 versions: afterwards a project has
  -- at most 100 versions in memory, or at most as many as before.
  pub track_change_bound :
      (project : String) (actor : Actor) (kind : String) (changes : Json) (text : String)
      (s : Tracker c entries ids) (q : String)
      → let n = length (
          history_of c entries ids q
            (track_change c entries ids project actor kind changes text s).0) in
        (n ≤ 100) ⊎ (n ≤ length (history_of c entries ids q s))
  unfolding track_change
  track_change_bound project actor kind changes text s q =
      let s' = initialised c entries ids project s in
      let number = suc (get_current_version_number c entries ids project s') in
      let e = new_version c entries ids project actor kind text changes none number in
      let old = history_of c entries ids project s' in
      ground (
        arith,
        get-set project q (limit_size c entries ids (old ++ e ∷ [])) s'.version_history,
        limit_size_lem old e,
        initialised_lem project q s,
        initialised_lem project project s,
        eq_iff project q,
      )

  -- The state after a number of snapshots.
  pub take_snapshots :
      String → List (Actor × String) → Tracker c entries ids → Tracker c entries ids
  take_snapshots project [] s = s
  take_snapshots project ((actor, text) ∷ rest) s =
      take_snapshots project rest (create_snapshot_version c entries ids project actor text s).0

  snapshot_length :
      (project : String) (actor : Actor) (text : String) (s : Tracker c entries ids)
      → length (
          history_of c entries ids project
            (create_snapshot_version c entries ids project actor text s).0)
        ≡ suc (length (history_of c entries ids project s))
  unfolding create_snapshot_version
  snapshot_length project actor text s =
      let s' = initialised c entries ids project s in
      let number = suc (get_current_version_number c entries ids project s') in
      let e =
        new_version c entries ids project actor "snapshot"
          (if text == "" then "Manual snapshot" else text) (obj end)
          (some (full_state_of c entries ids project s)) number in
      let xs = history_of c entries ids project s' in
      ground (
        arith,
        get-set project project (xs ++ e ∷ []) s'.version_history,
        eq_refl project,
        initialised_lem project project s,
        length-append xs (e ∷ []),
      )

  -- Snapshots are all kept: any number of them makes a project's versions in memory more by as
  -- many, beyond any limit.
  pub snapshots_unbounded :
      (project : String) (shots : List (Actor × String)) (s : Tracker c entries ids)
      → length (history_of c entries ids project (take_snapshots project shots s))
        ≡ length shots + length (history_of c entries ids project s)
  unfolding take_snapshots
  snapshots_unbounded project [] s = omega arith
  snapshots_unbounded project ((actor, text) ∷ rest) s =
      let s' = (create_snapshot_version c entries ids project actor text s).0 in
      omega (arith, snapshots_unbounded project rest s', snapshot_length project actor text s)

-- ===== src/VersionTracker/Restore.antt =====
-- What restoring a version brings back, in src/project/version-tracker.service.ts.
use Prim.Native.String.{◌++◌ as concat, slice}
use text.Mathlib.TextLemmas.{append_assoc}
use text.Mathlib.TextPositions.{slice-append_left}
use starsyncbackend.Prelude.{
  Bool, ◌⊎◌, Option-cases, false, ℕ, zero, suc, String, true, false, ◌==◌, if◌then◌else◌, List, [],
  ◌∷◌, ◌++◌, Option, none, some, is_some, ◌≡◌, ◌≢◌, inl, inr, refl, arith, eq_iff, eq_refl,
  Bool-cases,
}
use starsyncbackend.Json.{Json, obj, end}
use starsyncbackend.JsMap
use starsyncbackend.JsMap.{get-set}
use starsyncbackend.RedisService.{
  RedisClient, ArrayText, ParsedArray, items, stored_at, read_answer, pushed,
}
use starsyncbackend.VersionTracker.{
  VersionEntry, Actor, ValueText, Tracker, history_of, get_current_version_number, initialised,
  new_version, track_change, create_snapshot_version, version_list_key, find_version, loaded,
  get_version, restore_to_version, finish_restore, restore_from, full_state_of, restored,
}
use starsyncbackend.Prelude.{differs, sym, ap, ◌∙◌}
use starsyncbackend.RedisService.{get_content_key, get_item}
use starsyncbackend.VersionTracker.Size.{initialised_lem}
use starsyncbackend.VersionTracker.{version_key, store_version_in_redis}

-- No content key is the key of a version or of a list of versions.
version-ne-content : (p q : String) → concat "version:" p ≢ get_content_key q
unfolding get_content_key
version-ne-content p q e =
    let left : concat "StarSync-Content-" q ≡ concat "StarSync" (concat "-Content-" q) =
      append_assoc "StarSync" "-Content-" q in
    let same : ◌≡◌ {A = String} "version:" "StarSync" =
      sym (slice-append_left "version:" p)
      ∙ ap (λ t. slice t zero 8) (e ∙ left)
      ∙ slice-append_left "StarSync" (concat "-Content-" q) in
    differs "version:" "StarSync" refl same

module _ (c : RedisClient) (entries : ValueText c (VersionEntry c.Text))
    (ids : ArrayText c String) where
  -- The content of a project, as it stands in Redis.
  abbrev content : String → c.Store → Option c.Text
  content project t = get_item c (get_content_key project) t

  set_version_keeps :
      (q rest : String) (v : c.Text) (t : c.Store)
      → content q (c.set (concat "version:" rest) v t) ≡ content q t
  set_version_keeps q rest v t = ground (
    arith,
    c.get-set (concat "version:" rest) (get_content_key q) v t,
    eq_iff (concat "version:" rest) (get_content_key q),
    version-ne-content rest q,
  )

  list_key_eq :
      (project : String)
      → version_list_key c entries ids project ≡ concat "version:" (concat "list:" project)
  unfolding version_list_key
  list_key_eq project = append_assoc "version:" "list:" project

  -- The list of the versions, as a place reads it that adds to it.
  abbrev listed : String → c.Store → ParsedArray c.Text String
  listed project t = stored_at c ids (version_list_key c entries ids project) t

  no_push :
      (value : String) (answer : Option c.Text) (xs : List String)
      → read_answer c ids answer ≡ items xs
      → pushed c ids value answer ≢ none
  unfolding pushed
  no_push value answer xs h n = ground (arith, h, n)

  -- A call that stores a version keeps every content, and throws only where the list is no array.
  store_version_lem :
      (project q : String) (e : VersionEntry c.Text) (t : c.Store)
      → let r = store_version_in_redis c entries ids project e t in
        (content q r.0 ≡ content q t)
        × ((r.1 ≡ true) ⊎ ((r.1 ≡ false) × ((xs : List String) → listed project r.0 ≢ items xs)))
  unfolding store_version_in_redis version_key
  store_version_lem project q e t =
      let t1 =
        c.set (concat "version:" (concat project (concat ":" e.version_id))) (entries.write e) t in
      let kept : content q t1 ≡ content q t =
        set_version_keeps q (concat project (concat ":" e.version_id)) (entries.write e) t in
      let answer = pushed c ids e.version_id (c.get (version_list_key c entries ids project) t1) in
      elim (Option-cases answer) [
        | inl n ↦
            rw (n, store_version_in_redis) (kept, inr (refl, λ xs h. no_push e.version_id _ xs h n))
        | inr (text, n) ↦
            rw (n, store_version_in_redis)
              (
                rw (list_key_eq project) (set_version_keeps q (concat "list:" project) text t1)
                    ∙ kept,
                inl refl,
              )
      ]

  track_change_lem :
      (project : String) (actor : Actor) (kind : String) (changes : Json) (text : String)
      (s : Tracker c entries ids) (q : String)
      → let r = track_change c entries ids project actor kind changes text s in
        (content q r.0.redis ≡ content q s.redis)
        × ((r.1 ≡ true)
            ⊎ ((r.1 ≡ false) × ((xs : List String) → listed project r.0.redis ≢ items xs)))
  unfolding track_change initialised
  track_change_lem project actor kind changes text s q =
      elim (Bool-cases (is_some (JsMap.get project s.version_history))) [
        | inl h ↦ rw h (store_version_lem project q _ s.redis)
        | inr h ↦ rw h (store_version_lem project q _ s.redis)
      ]

  -- A restoring returns, or throws where the list of the versions is no array.
  abbrev pub Ends : String → Tracker c entries ids × Option Bool → Type 0
  Ends project r =
      (r.1 ≡ some true)
      ⊎ ((r.1 ≡ none)
          × ((xs : List String)
              → stored_at c ids (version_list_key c entries ids project) r.0.redis ≢ items xs))

  finish_restore_lem :
      (to_text : ℕ → String) (project : String) (v : VersionEntry c.Text) (text : c.Text)
      (actor : Actor) (s : Tracker c entries ids)
      → let r = finish_restore c entries ids to_text project v text actor s in
        Ends project r
        × (content project r.0.redis ≡ some text)
        × ((q : String)
            → (get_content_key project == get_content_key q) ≡ false
            → content q r.0.redis ≡ content q s.redis)
  unfolding finish_restore
  finish_restore_lem to_text project v text actor s =
      let t : Tracker c entries ids = record s {
        redis = c.set (get_content_key project) text s.redis;
      } in
      let tracked = λ (q : String).
        track_change_lem project actor "restore" (restored c entries ids v)
          (concat "Restored to version " (to_text v.version_number)) t q in
      (
        elim (tracked project).1 [
          | inl returned ↦ inl (rw returned refl)
          | inr (threw, no_list) ↦ inr (rw threw refl, no_list)
        ],
        (tracked project).0
            ∙ ground (
              arith,
              c.get-set (get_content_key project) (get_content_key project) text s.redis,
              eq_refl (get_content_key project),
            ),
        λ q other.
            (tracked q).0
            ∙ ground (
              arith,
              c.get-set (get_content_key project) (get_content_key q) text s.redis,
              other,
            ),
      )

  looked_up :
      (project id : String) (s : Tracker c entries ids) (v : VersionEntry c.Text)
      → is_some (JsMap.get project s.version_history) ≡ true
      → find_version c entries ids id (history_of c entries ids project s) ≡ some v
      → get_version c entries ids project id s ≡ (s, some (some v))
  unfolding get_version loaded
  looked_up project id s v here there = ground (arith, here, there)

  from_found :
      (to_text : ℕ → String) (project : String) (actor : Actor) (s : Tracker c entries ids)
      (v : VersionEntry c.Text) (text : c.Text)
      → v.full_state ≡ some text
      → entries.is_nonempty text ≡ true
      → restore_from c entries ids to_text project actor (s, some (some v))
        ≡ finish_restore c entries ids to_text project v text actor s
  unfolding restore_from
  from_found to_text project actor s v text full whole = rw (full, restore_from) (rw whole refl)

  -- Restoring a version that is found with its full state, which is not empty.
  restore_found :
      (to_text : ℕ → String) (project id : String) (actor : Actor) (s : Tracker c entries ids)
      (v : VersionEntry c.Text) (text : c.Text)
      → is_some (JsMap.get project s.version_history) ≡ true
      → find_version c entries ids id (history_of c entries ids project s) ≡ some v
      → v.full_state ≡ some text
      → entries.is_nonempty text ≡ true
      → restore_to_version c entries ids to_text project id actor s
        ≡ finish_restore c entries ids to_text project v text actor s
  unfolding restore_to_version
  restore_found to_text project id actor s v text here there full whole =
      ap (restore_from c entries ids to_text project actor) (looked_up project id s v here there)
      ∙ from_found to_text project actor s v text full whole

  find-last :
      (id : String) (xs : List (VersionEntry c.Text)) (e : VersionEntry c.Text)
      → find_version c entries ids id xs ≡ none
      → e.version_id ≡ id
      → find_version c entries ids id (xs ++ e ∷ []) ≡ some e
  unfolding find_version
  find-last id [] e h k = ground (arith, k, eq_iff e.version_id id)
  find-last id (x ∷ xs) e h k = ground (arith, h, find-last id xs e)

  full_state_of-nonempty :
      (project : String) (s : Tracker c entries ids)
      → entries.is_nonempty (full_state_of c entries ids project s) ≡ true
  unfolding full_state_of
  full_state_of-nonempty project s = ground (arith, entries.empty_object-nonempty)

  -- The history after a snapshot, which is there, and in which the snapshot is found by its id.
  snapshot_found :
      (project : String) (actor : Actor) (text : String) (s : Tracker c entries ids)
      → find_version c entries ids actor.new_id (history_of c entries ids project s) ≡ none
      → let t = (create_snapshot_version c entries ids project actor text s).0 in
        (is_some (JsMap.get project t.version_history) ≡ true)
        × ((v : VersionEntry c.Text) × (find_version c entries ids actor.new_id
                (history_of c entries ids project t)
              ≡ some v)
            × (v.full_state ≡ some (full_state_of c entries ids project s)))
  unfolding create_snapshot_version new_version
  snapshot_found project actor text s fresh =
      let s' = initialised c entries ids project s in
      let number = suc (get_current_version_number c entries ids project s') in
      let t = (create_snapshot_version c entries ids project actor text s).0 in
      let e =
        new_version c entries ids project actor "snapshot"
          (if text == "" then "Manual snapshot" else text) (obj end)
          (some (full_state_of c entries ids project s)) number in
      let xs = history_of c entries ids project s' in
      let stored : JsMap.get project t.version_history ≡ some (xs ++ e ∷ []) =
        ground
          (arith, get-set project project (xs ++ e ∷ []) s'.version_history, eq_refl project) in
      let fresh' : find_version c entries ids actor.new_id xs ≡ none =
        rw (initialised_lem c entries ids project project s) fresh in
      (rw stored refl, (e, rw stored (find-last actor.new_id xs e fresh' refl), refl))

  -- The content that a snapshot saves: what stands in Redis, or '{}' where that is nothing or an empty
  -- text.
  abbrev pub saved_text : Option c.Text → c.Text
  saved_text none = entries.empty_object
  saved_text (some text) = if entries.is_nonempty text then text else entries.empty_object

  full_state_of-saved_text :
      (project : String) (s : Tracker c entries ids)
      → full_state_of c entries ids project s ≡ saved_text (content project s.redis)
  unfolding full_state_of
  full_state_of-saved_text project s = ground arith

  -- When a snapshot is taken with an id that no version of the project in memory has, restoring
  -- that version, whatever is in Redis in between, brings back as the project's content what was
  -- there when the snapshot was taken, or '{}' where that was nothing or an empty text, and leaves
  -- the content of every project with another content key as it was; and it succeeds, or it throws
  -- and then the list of the project's versions in Redis is no array.
  pub restore_to_snapshot :
      (to_text : ℕ → String) (project : String) (actor later : Actor) (text : String)
      (s : Tracker c entries ids) (between : c.Store)
      → find_version c entries ids actor.new_id (history_of c entries ids project s) ≡ none
      → let t = record (create_snapshot_version c entries ids project actor text s).0 {
        redis = between;
      } in
        let r = restore_to_version c entries ids to_text project actor.new_id later t in
        Ends project r
        × (get_item c (get_content_key project) r.0.redis
            ≡ some (saved_text (get_item c (get_content_key project) s.redis)))
        × ((q : String)
            → (get_content_key project == get_content_key q) ≡ false
            → get_item c (get_content_key q) r.0.redis ≡ get_item c (get_content_key q) between)
  restore_to_snapshot to_text project actor later text s between fresh =
      let (here, (v, there, full)) = snapshot_found project actor text s fresh in
      let t : Tracker c entries ids =
        record (create_snapshot_version c entries ids project actor text s).0 { redis = between } in
      let saved = full_state_of c entries ids project s in
      let run =
        restore_found to_text project actor.new_id later t v saved here there full
          (full_state_of-nonempty project s) in
      let (ends, back, others) = finish_restore_lem to_text project v saved later t in
      rw run (ends, back ∙ ap (λ x. some x) (full_state_of-saved_text project s), others)

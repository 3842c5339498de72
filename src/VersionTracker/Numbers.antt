-- ===== src/VersionTracker/Numbers.antt =====
-- The numbers of the versions in memory, over the methods of src/project/version-tracker.service.ts.
use starsyncbackend.Prelude.{
  Option, ℕ, none, some, suc, ◌≤◌, String, ◌==◌, List, [], ◌∷◌, ◌++◌, length, All, ltb, leb,
  is_some, ◌≡◌, inl, inr, refl, arith, Bool-cases, Option-cases,
}
use starsyncbackend.Json.{Json}
use starsyncbackend.JsMap
use starsyncbackend.JsMap.{get-set}
use starsyncbackend.RedisService.{RedisClient, ArrayText}
use starsyncbackend.VersionTracker.{
  VersionEntry, Actor, ValueText, Tracker, history_of, get_current_version_number, initialised,
  new_version, limit_size, max_versions_per_project, track_change, create_snapshot_version,
  insert_version, sort_versions, max_number, read_entries, load_version_history, loaded,
  get_version, finish_restore, restore_from, restore_to_version,
}

module _ {Text : Type 0} where
  abbrev pub Ascending : List (VersionEntry Text) → Type 0
  Ascending [] = Unit
  Ascending (x ∷ xs) = All (λ y. x.version_number ≤ y.version_number) xs × Ascending xs

  -- The numbers ascend to the current one at most.
  abbrev pub UpTo : ℕ → List (VersionEntry Text) → Type 0
  UpTo n xs = Ascending xs × All (λ x. x.version_number ≤ n) xs

  All-weaken :
      (m n : ℕ) (xs : List (VersionEntry Text))
      → m ≤ n
      → All (λ x. x.version_number ≤ m) xs
      → All (λ x. x.version_number ≤ n) xs
  All-weaken m n [] h a = tt
  All-weaken m n (x ∷ xs) h a = (omega (arith, h, a.0), All-weaken m n xs h a.1)

  All-above :
      (m n : ℕ) (xs : List (VersionEntry Text))
      → m ≤ n
      → All (λ x. n ≤ x.version_number) xs
      → All (λ x. m ≤ x.version_number) xs
  All-above m n [] h a = tt
  All-above m n (x ∷ xs) h a = (omega (arith, h, a.0), All-above m n xs h a.1)

  All-last :
      (P : VersionEntry Text → Type 0) (xs : List (VersionEntry Text)) (e : VersionEntry Text)
      → All P xs
      → P e
      → All P (xs ++ e ∷ [])
  All-last P [] e a p = (p, tt)
  All-last P (x ∷ xs) e a p = (a.0, All-last P xs e a.1 p)

  Ascending-last :
      (n : ℕ) (xs : List (VersionEntry Text)) (e : VersionEntry Text)
      → UpTo n xs
      → n ≤ e.version_number
      → Ascending (xs ++ e ∷ [])
  Ascending-last n [] e u h = (tt, tt)
  Ascending-last n (x ∷ xs) e u h =
      (All-last _ xs e u.0.0 (omega (arith, u.1.0, h)), Ascending-last n xs e (u.0.1, u.1.1) h)

  -- A version with the next number is put last.
  pub UpTo-last :
      (n : ℕ) (xs : List (VersionEntry Text)) (e : VersionEntry Text)
      → UpTo n xs
      → e.version_number ≡ suc n
      → UpTo (suc n) (xs ++ e ∷ [])
  UpTo-last n xs e u h = (
    Ascending-last n xs e u (omega (arith, h)),
    All-last _ xs e (All-weaken n (suc n) xs (omega arith) u.1) (omega (arith, h)),
  )

module _ (c : RedisClient) (entries : ValueText c (VersionEntry c.Text))
    (ids : ArrayText c String) where
  abbrev Versions : Type 0
  Versions = List (VersionEntry c.Text)

  abbrev insert : VersionEntry c.Text → Versions → Versions
  insert = insert_version c entries ids

  insert-above :
      (m : ℕ) (x : VersionEntry c.Text) (xs : Versions)
      → m ≤ x.version_number
      → All (λ y. m ≤ y.version_number) xs
      → All (λ y. m ≤ y.version_number) (insert x xs)
  unfolding insert_version
  insert-above m x [] p a = (p, tt)
  insert-above m x (y ∷ ys) p a = elim (Bool-cases (leb x.version_number y.version_number)) [
    | inl h ↦ rw h (p, a)
    | inr h ↦ rw h (a.0, insert-above m x ys p a.1)
  ]

  insert-Ascending :
      (x : VersionEntry c.Text) (xs : Versions) → Ascending xs → Ascending (insert x xs)
  unfolding insert_version
  insert-Ascending x [] a = (tt, tt)
  insert-Ascending x (y ∷ ys) a = elim (Bool-cases (leb x.version_number y.version_number)) [
    | inl h ↦ rw h (
      (ground (arith, h), All-above x.version_number y.version_number ys (ground (arith, h)) a.0),
      a,
    )
    | inr h ↦
        rw h (insert-above y.version_number x ys (ground (arith, h)) a.0, insert-Ascending x ys a.1)
  ]

  sort-Ascending : (xs : Versions) → Ascending (sort_versions c entries ids xs)
  unfolding sort_versions
  sort-Ascending [] = tt
  sort-Ascending (x ∷ xs) = insert-Ascending x _ (sort-Ascending xs)

  max_number-next :
      (x : VersionEntry c.Text) (xs : Versions)
      → (x.version_number ≤ max_number c entries ids (x ∷ xs))
        × (max_number c entries ids xs ≤ max_number c entries ids (x ∷ xs))
  unfolding max_number
  max_number-next x xs = (ground arith, ground arith)

  max_number-bounds : (xs : Versions) → All (λ x. x.version_number ≤ max_number c entries ids xs) xs
  max_number-bounds [] = tt
  max_number-bounds (x ∷ xs) =
      let next = max_number-next x xs in (next.0, All-weaken _ _ xs next.1 (max_number-bounds xs))

  limit_size-UpTo : (n : ℕ) (xs : Versions) → UpTo n xs → UpTo n (limit_size c entries ids xs)
  unfolding limit_size
  limit_size-UpTo n [] u = u
  limit_size-UpTo n (x ∷ xs) u =
      elim (Bool-cases (ltb max_versions_per_project (length (x ∷ xs)))) [
        | inl h ↦ rw h (u.0.1, u.1.1)
        | inr h ↦ rw h u
      ]

  -- In every project the numbers ascend, to the current number at most.
  pub record IsNumbered (s : Tracker c entries ids) : Type 0 where
    pub at_project :
        (p : String)
        → UpTo (get_current_version_number c entries ids p s) (history_of c entries ids p s)

  -- One project gets another history and number.
  set-IsNumbered :
      (project : String) (xs : Versions) (n : ℕ) (s t : Tracker c entries ids)
      → UpTo n xs
      → t.version_history ≡ JsMap.set project xs s.version_history
      → t.current_version_numbers ≡ JsMap.set project n s.current_version_numbers
      → IsNumbered s
      → IsNumbered t
  unfolding get_current_version_number
  set-IsNumbered project xs n s t u h k i = record {
    at_project = λ p.
        rw (h, k)
          (rw
            (get-set project p xs s.version_history, get-set project p n s.current_version_numbers)
            (elim (Bool-cases (project == p)) [ inl e ↦ rw e u | inr e ↦ rw e (i.at_project p) ]));
  }

  initialised-IsNumbered :
      (project : String) (s : Tracker c entries ids)
      → IsNumbered s
      → IsNumbered (initialised c entries ids project s)
  unfolding initialised
  initialised-IsNumbered project s i =
      elim (Bool-cases (is_some (JsMap.get project s.version_history))) [
        | inl h ↦ rw h i
        | inr h ↦ rw h (set-IsNumbered project [] 0 s _ (tt, tt) refl refl i)
      ]

  pub track_change-IsNumbered :
      (project : String) (actor : Actor) (kind : String) (changes : Json) (text : String)
      (s : Tracker c entries ids)
      → IsNumbered s
      → IsNumbered (track_change c entries ids project actor kind changes text s).0
  unfolding track_change new_version
  track_change-IsNumbered project actor kind changes text s i =
      let i' = initialised-IsNumbered project s i in
      let u = i'.at_project project in
      set-IsNumbered project _ _ (initialised c entries ids project s) _
        (limit_size-UpTo _ _ (UpTo-last _ _ _ u refl)) refl refl i'

  pub create_snapshot_version-IsNumbered :
      (project : String) (actor : Actor) (text : String) (s : Tracker c entries ids)
      → IsNumbered s
      → IsNumbered (create_snapshot_version c entries ids project actor text s).0
  unfolding create_snapshot_version new_version
  create_snapshot_version-IsNumbered project actor text s i =
      let i' = initialised-IsNumbered project s i in
      set-IsNumbered project _ _ (initialised c entries ids project s) _
        (UpTo-last _ _ _ (i'.at_project project) refl) refl refl i'

  pub loaded-IsNumbered :
      (project : String) (s : Tracker c entries ids)
      → IsNumbered s
      → IsNumbered (loaded c entries ids project s).0
  unfolding loaded load_version_history
  loaded-IsNumbered project s i =
      elim (Bool-cases (is_some (JsMap.get project s.version_history))) [
        | inl h ↦ rw h i
        | inr h ↦ rw h (elim (Option-cases (read_entries c entries ids project s)) [
          | inl n ↦ rw (n, load_version_history) i
          | inr (xs, n) ↦
              rw (n, load_version_history)
                (set-IsNumbered project _ _ s _ (sort-Ascending xs, max_number-bounds _) refl refl
                  i)
        ])
      ]

  finish_restore-IsNumbered :
      (to_text : ℕ → String) (project : String) (v : VersionEntry c.Text) (text : c.Text)
      (actor : Actor) (s : Tracker c entries ids)
      → IsNumbered s
      → IsNumbered (finish_restore c entries ids to_text project v text actor s).0
  unfolding finish_restore
  finish_restore-IsNumbered to_text project v text actor s i =
      track_change-IsNumbered project actor _ _ _ _ (record { at_project = i.at_project })

  pub get_version-IsNumbered :
      (project id : String) (s : Tracker c entries ids)
      → IsNumbered s
      → IsNumbered (get_version c entries ids project id s).0
  unfolding get_version
  get_version-IsNumbered project id s i = loaded-IsNumbered project s i

  restore_from-IsNumbered :
      (to_text : ℕ → String) (project : String) (actor : Actor) (s : Tracker c entries ids)
      (answer : Option (Option (VersionEntry c.Text)))
      → IsNumbered s
      → IsNumbered (restore_from c entries ids to_text project actor (s, answer)).0
  unfolding restore_from
  restore_from-IsNumbered to_text project actor s none i = i
  restore_from-IsNumbered to_text project actor s (some none) i = i
  restore_from-IsNumbered to_text project actor s (some (some v)) i =
      elim (Option-cases v.full_state) [
        | inl m ↦ rw (m, restore_from) i
        | inr (text, m) ↦
            rw (m, restore_from)
              (elim (Bool-cases (entries.is_nonempty text)) [
                | inl y ↦ rw y (finish_restore-IsNumbered to_text project v text actor s i)
                | inr y ↦ rw y i
              ])
      ]

  pub restore_to_version-IsNumbered :
      (to_text : ℕ → String) (project id : String) (actor : Actor) (s : Tracker c entries ids)
      → IsNumbered s
      → IsNumbered (restore_to_version c entries ids to_text project id actor s).0
  unfolding restore_to_version
  restore_to_version-IsNumbered to_text project id actor s i =
      restore_from-IsNumbered to_text project actor (get_version c entries ids project id s).0
        (get_version c entries ids project id s).1 (get_version-IsNumbered project id s i)

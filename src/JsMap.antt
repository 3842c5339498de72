-- ===== src/JsMap.antt =====
-- JavaScript's `Map` with text keys: the entries in insertion order. `set` on a key that is there
-- keeps its place, `delete` takes the entry out.
use starsyncbackend.Prelude.{
  String, ◌≡◌, refl, List, [], ◌∷◌, Option, none, some, arith, eq_iff, ◌==◌, if◌then◌else◌,
  Bool-cases, inl, inr, sym,
}

module _ {ℓ} {V : Type ℓ} where
  unfoldable pub get : String → List (String × V) → Option V
  get k [] = none
  get k ((j, v) ∷ m) = if j == k then some v else get k m

  unfoldable pub set : String → V → List (String × V) → List (String × V)
  set k v [] = (k, v) ∷ []
  set k v ((j, w) ∷ m) = if j == k then (k, v) ∷ m else (j, w) ∷ set k v m

  unfoldable pub delete : String → List (String × V) → List (String × V)
  delete k [] = []
  delete k ((j, v) ∷ m) = if j == k then delete k m else (j, v) ∷ delete k m

  pub get-set :
      (k j : String) (v : V) (m : List (String × V))
      → get j (set k v m) ≡ (if k == j then some v else get j m)
  unfolding get set
  get-set k j v [] = refl
  get-set k j v ((i, w) ∷ m) = ground (arith, eq_iff k j, eq_iff i k, eq_iff i j, get-set k j v m)

  pub get-delete :
      (k j : String) (m : List (String × V))
      → get j (delete k m) ≡ (if k == j then none else get j m)
  unfolding get delete
  get-delete k j [] = ground arith
  get-delete k j ((i, v) ∷ m) = ground (arith, get-delete k j m, eq_iff i k, eq_iff i j, eq_iff k j)

module _ {ℓ} {V : Type ℓ} where
  -- No key stands twice.
  abbrev pub Distinct : List (String × V) → Type ℓ
  Distinct [] = Unit
  Distinct ((k, v) ∷ m) = (get k m ≡ none) × Distinct m

  pub Distinct-set :
      (k : String) (v : V) (m : List (String × V)) → Distinct m → Distinct (set k v m)
  unfolding get set
  Distinct-set k v [] d = (refl, tt)
  Distinct-set k v ((j, w) ∷ m) d = elim (Bool-cases (j == k)) [
    | inl e ↦ rw (e, set) (rw (sym ((eq_iff j k).0 e)) d.0, d.1)
    | inr e ↦
        rw (e, set)
          (rw (get-set k j v m) (ground (arith, eq_iff j k, eq_iff k j)), Distinct-set k v m d.1)
  ]

  pub Distinct-delete : (k : String) (m : List (String × V)) → Distinct m → Distinct (delete k m)
  unfolding get delete
  Distinct-delete k [] d = tt
  Distinct-delete k ((j, w) ∷ m) d = elim (Bool-cases (j == k)) [
    | inl e ↦ rw (e, delete) (Distinct-delete k m d.1)
    | inr e ↦ rw (e, delete) (rw (get-delete k j m) (ground arith), Distinct-delete k m d.1)
  ]

pub ruleset map_laws = (get-set, get-delete)

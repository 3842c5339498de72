-- ===== src/PatternComments/Members.antt =====
-- The members of a project that src/project/pattern-comment.service.ts notifies, each once.
use starsyncbackend.Prelude.{
  ℕ, ◌+◌, ◌≤◌, String, ◌||◌, ◌==◌, ◌≡◌, refl, if◌then◌else◌, List, [], ◌∷◌, some, map, count, ltb,
  arith, Bool-cases, inl, inr, eq_iff, eq_refl, sym,
}
use starsyncbackend.JsSet
use starsyncbackend.Entities.{Project, Collaborator}
use starsyncbackend.PatternComments.{CommentRepositories, unique, members_of}

-- How often an id is in a list.
abbrev times : String → List String → ℕ
times u ids = count (λ x. x == u) ids

has-times : (u : String) (ids : List String) → JsSet.has u ids ≡ ltb 0 (times u ids)
unfolding JsSet.has
has-times u [] = ground arith
has-times u (x ∷ ids) = ground (arith, has-times u ids)

times-push :
    (x u : String) (ids : List String)
    → times u (JsSet.push x ids) ≡ (if x == u then 1 else 0) + times u ids
unfolding JsSet.push
times-push x u [] = refl
times-push x u (y ∷ ids) = ground (arith, times-push x u ids)

times-add :
    (x u : String) (ids : List String)
    → times u (JsSet.add x ids)
      ≡ (if JsSet.has x ids then times u ids else (if x == u then 1 else 0) + times u ids)
unfolding JsSet.add
times-add x u ids = ground (arith, times-push x u ids)

-- Adding an id leaves each at most once, and has it.
add_once :
    (x u : String) (ids : List String)
    → times x ids ≤ 1
    → times u ids ≤ 1
    → times u (JsSet.add x ids) ≡ (if x == u || ltb 0 (times u ids) then 1 else 0)
add_once x u ids h k = elim (Bool-cases (x == u)) [
  | inr other ↦ ground (arith, times-add x u ids, other, k)
  | inl same ↦
      rw (sym ((eq_iff x u).0 same))
        (ground (arith, times-add x x ids, has-times x ids, h, eq_refl x))
]

times-unique :
    (seen ids : List String) (u : String)
    → ((v : String) → times v seen ≤ 1)
    → times u (unique seen ids) ≡ (if ltb 0 (times u seen) || ltb 0 (times u ids) then 1 else 0)
unfolding unique
times-unique seen [] u once = ground (arith, once u)
times-unique seen (x ∷ ids) u once =
    let step : (v : String)
        → times v (JsSet.add x seen) ≡ (if x == v || ltb 0 (times v seen) then 1 else 0) =
      λ v. add_once x v seen (once x) (once v) in
    ground (arith, times-unique (JsSet.add x seen) ids u (λ v. ground (arith, step v)), step u)

times-map :
    (u : String) (ks : List Collaborator)
    → times u (map (λ (k : Collaborator). k.user_id) ks) ≡ count (λ k. k.user_id == u) ks
times-map u [] = refl
times-map u (k ∷ ks) = ground (arith, times-map u ks)

-- The owner and the collaborators, and nobody else, are among the members, each once.
pub members_of-once :
    (c : CommentRepositories) (trim : String → String) (p : Project) (ks : List Collaborator)
    (u : String)
    → count (λ x. x == u) (members_of c trim (some p) ks)
      ≡ (if p.owner_id == u || ltb 0 (count (λ k. k.user_id == u) ks) then 1 else 0)
members_of-once c trim p ks u = ground (
  arith,
  times-unique [] (p.owner_id ∷ map (λ (k : Collaborator). k.user_id) ks) u (λ v. ground arith),
  times-map u ks,
)

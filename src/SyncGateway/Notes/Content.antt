-- ===== src/SyncGateway/Notes/Content.antt =====
-- What the note actions of src/socket/sync.gateway.ts do to the content, note by note.
use starsyncbackend.Prelude.{
  String, not, List, [], ◌∷◌, ◌++◌, ◌==◌, if◌then◌else◌, filter, ◌≡◌, ◌⊎◌, refl, arith, eq_iff,
  eq_refl,
}
use mathlib.Core.List.{append-nil}
use starsyncbackend.SyncGateway.Notes.{
  SyncAction, add, update, delete, other, Note, NoteAction, update_all, apply_action, apply_actions,
}

-- The notes of one id.
abbrev pub notes_of : String → List Note → List Note
notes_of u = filter (λ x. x.uuid == u)

-- The actions on one id.
abbrev pub actions_of : String → List NoteAction → List NoteAction
actions_of u = filter (λ a. a.target.uuid == u)

notes_of-append :
    (u : String) (xs ys : List Note) → notes_of u (xs ++ ys) ≡ notes_of u xs ++ notes_of u ys
notes_of-append u [] ys = refl
notes_of-append u (x ∷ xs) ys = ground (arith, notes_of-append u xs ys)

notes_of-update_all :
    (u : String) (n : Note) (xs : List Note)
    → notes_of u (update_all n xs)
      ≡ (if n.uuid == u then update_all n (notes_of u xs) else notes_of u xs)
unfolding update_all
notes_of-update_all u n [] = ground arith
notes_of-update_all u n (x ∷ xs) = ground (
  arith,
  notes_of-update_all u n xs,
  eq_iff n.uuid u,
  eq_iff x.uuid u,
  eq_iff x.uuid n.uuid,
  eq_refl n.uuid,
)

notes_of-delete :
    (u v : String) (xs : List Note)
    → notes_of u (filter (λ x. not (x.uuid == v)) xs)
      ≡ (if v == u then filter (λ x. not (x.uuid == v)) (notes_of u xs) else notes_of u xs)
notes_of-delete u v [] = ground arith
notes_of-delete u v (x ∷ xs) =
    ground (arith, notes_of-delete u v xs, eq_iff v u, eq_iff x.uuid u, eq_iff x.uuid v)

notes_of-apply_action :
    (u : String) (t : Note) (k : SyncAction) (xs : List Note)
    → let a : NoteAction = record { target = t; action = k } in
      notes_of u (apply_action a xs)
      ≡ (if t.uuid == u then apply_action a (notes_of u xs) else notes_of u xs)
unfolding apply_action
notes_of-apply_action u t add xs =
    ground (arith, notes_of-append u xs (t ∷ []), append-nil (notes_of u xs))
notes_of-apply_action u t update xs = notes_of-update_all u t xs
notes_of-apply_action u t delete xs = notes_of-delete u t.uuid xs
notes_of-apply_action u t other xs = ground arith

-- A sync message acts on each note by itself: for every id, the notes of that id after the message
-- are what the message's actions on that id, in their order, make of the notes of that id before
-- it.
pub apply_actions-local :
    (u : String) (acts : List NoteAction) (content : List Note)
    → notes_of u (apply_actions acts content)
      ≡ apply_actions (actions_of u acts) (notes_of u content)
unfolding apply_actions
apply_actions-local u [] content = refl
apply_actions-local u (a ∷ acts) content = ground (
  arith,
  apply_actions-local u acts (apply_action a content),
  notes_of-apply_action u a.target a.action content,
)

-- Two sync messages whose actions share no id may be applied in either order: for every id the
-- notes of that id come out the same.
pub apply_actions_comm :
    (xs ys : List NoteAction) (content : List Note)
    → ((u : String) → (actions_of u xs ≡ []) ⊎ (actions_of u ys ≡ []))
    → (u : String)
    → notes_of u (apply_actions ys (apply_actions xs content))
      ≡ notes_of u (apply_actions xs (apply_actions ys content))
unfolding apply_actions
apply_actions_comm xs ys content disjoint u = ground (
  arith,
  disjoint u,
  apply_actions-local u ys (apply_actions xs content),
  apply_actions-local u xs content,
  apply_actions-local u xs (apply_actions ys content),
  apply_actions-local u ys content,
)

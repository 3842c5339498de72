-- ===== src/PatternComments.antt =====
-- src/project/pattern-comment.service.ts: comments on the patterns of a project. The service works on
-- the database of the other services, its own table and what it has the notification gateway emit.
pub mod Guards
pub mod Members
pub mod Created
mod Examples
use Prim.Native.String.{◌++◌ as concat}
use starsyncbackend.Prelude.{
  ℕ, String, Bool, true, false, not, ◌&&◌, ◌||◌, List, [], ◌∷◌, ◌++◌, Option, none, some, ◌==◌, ◌≡◌,
  if◌then◌else◌, map, or_else,
}
use starsyncbackend.Prelude.Int.{ℤ, pos, ltb_ℤ}
use starsyncbackend.JsSet
use starsyncbackend.Database.{Repository}
use starsyncbackend.Effect.{
  Effect, Result, ok, err, not_found, forbidden, database, ◌>>=◌, ◌>>◌, pure, throw_if, query,
  found,
}
use starsyncbackend.Entities.{User, Project, Collaborator, Repositories, Db}
use starsyncbackend.Permission.{can_comment, find_project}

-- The position is a track and a bar; `null` is none.
pub record PatternComment : Type 0 where
  pub id : String
  pub project_id : String
  pub pattern_name : String
  pub user_id : String
  pub comment_text : String
  pub track : Option ℤ
  pub start_bar : Option ℤ
  pub created_at : ℕ

pub record CommentRepositories : Type 1 where
  pub others : Repositories
  pub comments : Repository PatternComment
  pub comment_key : (m : PatternComment) → comments.id_of m ≡ m.id

-- What goes to the gateway: a comment with the name of its author, or the id of one that is gone.
pub data Emission : Type 0 where
  created updated : String → PatternComment → String → Emission
  deleted : String → String → Emission

pub record CommentDb (c : CommentRepositories) : Type 0 where
  pub others : Db c.others
  pub comments : c.comments.Table
  pub emitted : List Emission

-- `value !== undefined && value >= 0 ? value : null`
unfoldable pub position : Option ℤ → Option ℤ
position none = none
position (some n) = if ltb_ℤ n (pos 0) then none else some n

-- The position after an update: `undefined` leaves it.
unfoldable pub moved : Option ℤ → Option ℤ → Option ℤ
unfolding position
moved none old = old
moved (some n) old = position (some n)

-- `.filter((id, index, self) => self.indexOf(id) === index)`: the first of each.
unfoldable pub unique : List String → List String → List String
unique seen [] = seen
unique seen (id ∷ ids) = unique (JsSet.add id seen) ids

-- `user?.username || \`${first} ${last}\`.trim() || 'Unknown'`, with `trim` as a parameter.
unfoldable pub username_of : (String → String) → Option User → String
username_of trim none = or_else (trim " ") "Unknown"
username_of trim (some u) =
    or_else u.username (or_else (trim (concat u.first_name (concat " " u.last_name))) "Unknown")

module _ (c : CommentRepositories) (trim : String → String) where
  -- A call of another service on its part of the state.
  abbrev pub on_others : {A : Type 0} → Effect (Db c.others) A → Effect (CommentDb c) A
  on_others m s = let (r, t) = m s.others in (r, record s { others = t })

  abbrev pub find_comment : String → Effect (CommentDb c) (Option PatternComment)
  find_comment comment_id = query (λ s. c.comments.find_one (λ m. m.id == comment_id) s.comments)

  abbrev pub insert_comment : (String → ℕ → PatternComment) → Effect (CommentDb c) PatternComment
  insert_comment f s = elim (c.comments.insert f s.comments) [
    | ok (t, row) ↦ (ok row, record s { comments = t })
    | err x ↦ (err x, s)
  ]

  abbrev pub update_comment : PatternComment → Effect (CommentDb c) (Unit {0})
  update_comment row s = elim (c.comments.update row s.comments) [
    | ok t ↦ (ok tt, record s { comments = t })
    | err x ↦ (err x, s)
  ]

  abbrev pub delete_comment_row : String → Effect (CommentDb c) (Unit {0})
  delete_comment_row id s = elim (c.comments.delete (λ m. m.id == id) s.comments) [
    | ok t ↦ (ok tt, record s { comments = t })
    | err x ↦ (err x, s)
  ]

  abbrev pub emit : Emission → Effect (CommentDb c) (Unit {0})
  emit e s = (ok tt, record s { emitted = s.emitted ++ e ∷ [] })

  -- `allUserIds.forEach((uid) => emit(...))`: the id is not used.
  unfoldable pub emit_for_each : Emission → List String → Effect (CommentDb c) (Unit {0})
  emit_for_each e [] = pure tt
  emit_for_each e (id ∷ ids) = do emit e; emit_for_each e ids

  -- The saved comment with its author, for the name of that.
  unfoldable pub author_of : String → Effect (CommentDb c) (Option User)
  author_of comment_id = do
    row ← find_comment comment_id
    elim row [
      | none ↦ pure none
      | some m ↦ query (λ s. c.others.users.find_one (λ u. u.id == m.user_id) s.others.users)
    ]

  abbrev pub collaborators_of : String → Effect (CommentDb c) (List Collaborator)
  collaborators_of project_id = query (λ s.
      c.others.collaborators.find_many (λ k. k.project_id == project_id) s.others.collaborators)

  -- The owner of the project, when it is there, and its collaborators, each once.
  abbrev pub members_of : Option Project → List Collaborator → List String
  members_of none ks = unique [] (map (λ (k : Collaborator). k.user_id) ks)
  members_of (some p) ks = unique [] (p.owner_id ∷ map (λ (k : Collaborator). k.user_id) ks)

  unfoldable pub create_comment :
      String → String → String → String → Option ℤ → Option ℤ → Effect (CommentDb c) PatternComment
  unfolding position emit_for_each author_of username_of unique
  create_comment user_id project_id pattern_name comment_text track start_bar = do
    may ← on_others (can_comment c.others user_id project_id)
    throw_if (not may) (forbidden "You do not have permission to comment on this project")
    p ← on_others (find_project c.others project_id)
    project ← found p (not_found "Project not found")
    saved ← insert_comment (λ id at. record {
      id = id;
      project_id = project_id;
      pattern_name = pattern_name;
      user_id = user_id;
      comment_text = comment_text;
      track = position track;
      start_bar = position start_bar;
      created_at = at;
    })
    author ← author_of saved.id
    ks ← collaborators_of project_id
    emit_for_each (created project_id saved (username_of trim author))
        (members_of (some project) ks)
    pure saved

  -- The rows that the query finds; it orders them by time.
  unfoldable pub get_comments : String → Option String → Effect (CommentDb c) (List PatternComment)
  get_comments project_id pattern_name = query (λ s.
      c.comments.find_many
        (λ m.
          m.project_id == project_id
          && elim pattern_name [ none ↦ true | some name ↦ name == "" || m.pattern_name == name ])
        s.comments)

  -- A comment always has its project, by a key of the database.
  unfoldable pub delete_comment : String → String → Effect (CommentDb c) (Unit {0})
  delete_comment user_id comment_id = do
    row ← find_comment comment_id
    m ← found row (not_found "Comment not found")
    p ← on_others (find_project c.others m.project_id)
    project ← found p database
    throw_if (not (m.user_id == user_id) && not (project.owner_id == user_id))
        (forbidden "You do not have permission to delete this comment")
    delete_comment_row m.id
    emit (deleted m.project_id comment_id)

  unfoldable pub update_comment_position :
      String → String → String → Option ℤ → Option ℤ → Effect (CommentDb c) PatternComment
  unfolding moved emit_for_each author_of username_of unique
  update_comment_position user_id project_id comment_id track start_bar = do
    may ← on_others (can_comment c.others user_id project_id)
    throw_if (not may) (forbidden "You do not have permission to update comments on this project")
    row ← find_comment comment_id
    m ← found row (not_found "Comment not found")
    throw_if (not (m.project_id == project_id))
        (forbidden "Comment does not belong to this project")
    let saved : PatternComment = record m {
      track = moved track m.track;
      start_bar = moved start_bar m.start_bar;
    }
    update_comment saved
    author ← author_of saved.id
    ks ← collaborators_of project_id
    p ← on_others (find_project c.others project_id)
    emit_for_each (updated project_id saved (username_of trim author))
        (JsSet.delete "" (members_of p ks))
    pure saved

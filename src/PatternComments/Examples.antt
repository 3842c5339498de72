-- ===== src/PatternComments/Examples.antt =====
-- Runs of src/project/pattern-comment.service.ts: an owner and a viewer of one project.
use starsyncbackend.Prelude.{none, some, [], ◌∷◌, ◌≡◌, ◌⊎◌, refl}
use starsyncbackend.Prelude.Int.{pos, negsuc}
use starsyncbackend.Effect.{Error, ok, err}
use starsyncbackend.JsSet
use starsyncbackend.Database.InMemory.{in_memory}
use starsyncbackend.Entities.{Db, viewer}
use starsyncbackend.Entities.Sample.{repositories, user}
use starsyncbackend.Permission.{can_comment, get_user_role}
use starsyncbackend.PatternComments.{
  PatternComment, CommentRepositories, CommentDb, create_comment, delete_comment, position,
  author_of, emit_for_each, unique, username_of,
}
use starsyncbackend.PatternComments.Guards.{Deleted, delete_comment_lem}
use starsyncbackend.PatternComments.Created.{Created, create_comment_lem}

unfoldable comment_repositories : CommentRepositories
unfolding in_memory
comment_repositories = record {
  others = repositories;
  comments = in_memory (λ (m : PatternComment). m.id);
  comment_key = λ m. refl;
}

unfoldable database : Db repositories
unfolding in_memory repositories
database = record {
  users = user "alice" ∷ user "bob" ∷ [];
  projects = record { id = "song"; owner_id = "alice"; name = "Song"; notes = "" } ∷ [];
  collaborators = record { id = "c"; project_id = "song"; user_id = "bob"; role = viewer } ∷ [];
  invitations = [];
  friends = [];
  friend_requests = [];
  notices = [];
}

unfoldable comments : CommentDb comment_repositories
unfolding comment_repositories in_memory
comments = record { others = database; comments = []; emitted = [] }

-- The comment of the viewer, on a track, without a bar.
abbrev written : PatternComment
written = record {
  id = "id";
  project_id = "song";
  pattern_name = "drums";
  user_id = "bob";
  comment_text = "louder";
  track = some (pos 2);
  start_bar = none;
  created_at = 0;
}

create_comment_lem_example :
    Created comment_repositories
      (λ t. t)
      "bob"
      "song"
      "drums"
      "louder"
      (some (pos 2))
      (some (negsuc 0))
      written
      comments
      (create_comment comment_repositories
        (λ t. t)
        "bob"
        "song"
        "drums"
        "louder"
        (some (pos 2))
        (some (negsuc 0))
        comments).1
unfolding comments comment_repositories database repositories in_memory create_comment can_comment
    get_user_role position author_of emit_for_each unique username_of JsSet.add
create_comment_lem_example =
    create_comment_lem comment_repositories (λ t. t) "bob" "song" "drums" "louder" (some (pos 2))
      (some (negsuc 0)) comments written refl

unfoldable commented : CommentDb comment_repositories
unfolding comment_repositories in_memory
commented = record { others = database; comments = written ∷ []; emitted = [] }

delete_comment_lem_example :
    let (r, s') = delete_comment comment_repositories (λ t. t) "alice" "id" commented in
    ((r ≡ ok tt) × Deleted comment_repositories (λ t. t) "alice" "id" commented s')
    ⊎ ((x : Error) × (r ≡ err x) × (s' ≡ commented))
delete_comment_lem_example = delete_comment_lem comment_repositories (λ t. t) "alice" "id" commented

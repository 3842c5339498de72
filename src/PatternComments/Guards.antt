-- ===== src/PatternComments/Guards.antt =====
-- Who may write and delete the comments of src/project/pattern-comment.service.ts, and what is emitted.
use starsyncbackend.Prelude.{
  String, Bool, true, false, not, ◌&&◌, ◌||◌, [], ◌∷◌, ◌++◌, some, ◌==◌, ◌≡◌, ◌⊎◌, inl, inr, ap,
  arith, Option-cases, Bool-cases, ◌∙◌,
}
use starsyncbackend.Effect.{Error, ok, err, not_found, forbidden, database, Result-cases}
use starsyncbackend.Entities.{Project}
use starsyncbackend.PatternComments.{
  PatternComment, CommentRepositories, CommentDb, deleted, delete_comment,
}

module _ (c : CommentRepositories) (trim : String → String) where
  -- The comment that is found is the user's, or its project is; it is gone, and its going is emitted.
  pub record Deleted (user comment_id : String) (s s' : CommentDb c) : Type 0 where
    pub row : PatternComment
    pub project : Project
    pub is_row : c.comments.find_one (λ m. m.id == comment_id) s.comments ≡ ok (some row)
    pub is_project :
        c.others.projects.find_one (λ p. p.id == row.project_id) s.others.projects
        ≡ ok (some project)
    pub permitted : (row.user_id == user || project.owner_id == user) ≡ true
    pub gone :
        (p : PatternComment → Bool)
        → c.comments.count p s'.comments
          ≡ c.comments.count (λ m. p m && not (m.id == row.id)) s.comments
    pub told : s'.emitted ≡ s.emitted ++ deleted row.project_id comment_id ∷ []
    pub others : s'.others ≡ s.others

  -- Deleting a comment either returns, and then the comment was there and is the user's, or its
  -- project is; the rows of its id are gone and no others, and one event of it is emitted; or it
  -- fails with an error, and then nothing has changed.
  pub delete_comment_lem :
      (user comment_id : String) (s : CommentDb c)
      → let (r, s') = delete_comment c trim user comment_id s in
        ((r ≡ ok tt) × Deleted user comment_id s s') ⊎ ((x : Error) × (r ≡ err x) × (s' ≡ s))
  unfolding delete_comment
  delete_comment_lem user comment_id s =
      elim (Result-cases (c.comments.find_one (λ m. m.id == comment_id) s.comments)) [
        | inr (x, e) ↦ inr (x, ground (arith, e), ground (arith, e))
        | inl (o, e) ↦ elim (Option-cases o) [
          | inl n ↦ inr (not_found "Comment not found", ground (arith, e, n), ground (arith, e, n))
          | inr (m, n) ↦ project_found m (e ∙ ap (λ x. ok x) n)
        ]
      ]
    where
      Goal : Type 0
      Goal =
          let (r, s') = delete_comment c trim user comment_id s in
          ((r ≡ ok tt) × Deleted user comment_id s s') ⊎ ((x : Error) × (r ≡ err x) × (s' ≡ s))

      row_deleted :
          (m : PatternComment) (p : Project)
          → c.comments.find_one (λ m. m.id == comment_id) s.comments ≡ ok (some m)
          → c.others.projects.find_one (λ p. p.id == m.project_id) s.others.projects ≡ ok (some p)
          → (not (m.user_id == user) && not (p.owner_id == user)) ≡ false
          → Goal
      row_deleted m p e f t =
          elim (Result-cases (c.comments.delete (λ x. x.id == m.id) s.comments)) [
            | inr (x, h) ↦ inr (x, ground (arith, e, f, t, h), ground (arith, e, f, t, h))
            | inl (table, h) ↦ inl (
              ground (arith, e, f, t, h),
              record {
                row = m;
                project = p;
                is_row = e;
                is_project = f;
                permitted = ground (arith, t);
                gone = λ q. ground (
                  arith,
                  e,
                  f,
                  t,
                  h,
                  c.comments.count-delete q (λ x. x.id == m.id) s.comments table h,
                );
                told = ground (arith, e, f, t, h);
                others = ground (arith, e, f, t, h);
              },
            )
          ]

      project_found :
          (m : PatternComment)
          → c.comments.find_one (λ m. m.id == comment_id) s.comments ≡ ok (some m)
          → Goal
      project_found m e =
          elim (Result-cases
            (c.others.projects.find_one (λ p. p.id == m.project_id) s.others.projects)) [
              | inr (x, f) ↦ inr (x, ground (arith, e, f), ground (arith, e, f))
              | inl (o, f) ↦ elim (Option-cases o) [
                | inl n ↦ inr (database, ground (arith, e, f, n), ground (arith, e, f, n))
                | inr (p, n) ↦
                    elim (Bool-cases (not (m.user_id == user) && not (p.owner_id == user))) [
                      | inl t ↦ inr (
                        forbidden "You do not have permission to delete this comment",
                        ground (arith, e, f, n, t),
                        ground (arith, e, f, n, t),
                      )
                      | inr t ↦ row_deleted m p e (f ∙ ap (λ x. ok x) n) t
                    ]
              ]
            ]

-- ===== src/PatternComments/Created.antt =====
-- What a new comment leaves behind, by src/project/pattern-comment.service.ts.
use starsyncbackend.Prelude.{
  ◌||◌, count, ltb, ℕ, zero, suc, ◌+◌, String, Bool, true, false, List, [], ◌∷◌, ◌++◌, Option, none,
  some, ◌==◌, ◌≡◌, refl, inl, inr, ap, if◌then◌else◌, arith, length, sym, ◌∙◌, subst,
}
use starsyncbackend.Prelude.Int.{ℤ, pos, negsuc}
use starsyncbackend.Effect.{ok, Result-cases}
use starsyncbackend.Entities.{User, Project, Collaborator}
use starsyncbackend.Permission.{can_comment}
use starsyncbackend.Permission.Roles.{get_user_role-reads}
use starsyncbackend.PatternComments.Members.{members_of-once}
use starsyncbackend.PatternComments.{
  PatternComment, CommentRepositories, CommentDb, Emission, created, create_comment, emit_for_each,
  position, author_of, username_of, members_of,
}

module _ (c : CommentRepositories) (trim : String → String) where
  -- How often something is emitted.
  abbrev pub copies : ℕ → Emission → List Emission
  copies zero e = []
  copies (suc n) e = e ∷ copies n e

  append-cons : (xs ys : List Emission) (x : Emission) → (xs ++ x ∷ []) ++ ys ≡ xs ++ x ∷ ys
  append-cons [] ys x = refl
  append-cons (y ∷ xs) ys x = ap (λ zs. y ∷ zs) (append-cons xs ys x)

  append-nil : (xs : List Emission) → xs ++ [] ≡ xs
  append-nil [] = refl
  append-nil (x ∷ xs) = ap (λ ys. x ∷ ys) (append-nil xs)

  emit_for_each_lem :
      (e : Emission) (ids : List String) (s : CommentDb c)
      → emit_for_each c trim e ids s
        ≡ (ok tt, record s { emitted = s.emitted ++ copies (length ids) e })
  unfolding emit_for_each
  emit_for_each_lem e [] s = rw (append-nil s.emitted) refl
  emit_for_each_lem e (id ∷ ids) s =
      emit_for_each_lem e ids (record s { emitted = s.emitted ++ e ∷ [] })
      ∙ ap (λ xs. (ok tt, record s { emitted = xs }))
          (append-cons s.emitted (copies (length ids) e) e)

  author_of-reads : (id : String) (s : CommentDb c) → (author_of c trim id s).1 ≡ s
  unfolding author_of
  author_of-reads id s = ground arith

  can_comment-reads :
      (user project : String) (s : CommentDb c)
      → (can_comment c.others user project s.others).1 ≡ s.others
  unfolding can_comment
  can_comment-reads user project s =
      ground (arith, get_user_role-reads c.others user project s.others)

  -- A position is kept where it is not negative.
  abbrev pub not_negative : Option ℤ → Option ℤ
  not_negative (some (pos n)) = some (pos n)
  not_negative _ = none

  position-not_negative : (o : Option ℤ) → position o ≡ not_negative o
  unfolding position
  position-not_negative none = refl
  position-not_negative (some (pos n)) = ground arith
  position-not_negative (some (negsuc n)) = ground arith

  -- The new row, and what of it is emitted, how often.
  pub record Created (user project pattern text : String) (track start_bar : Option ℤ)
      (m : PatternComment) (s s' : CommentDb c) : Type 0 where
    pub permitted : (can_comment c.others user project s.others).0 ≡ ok true
    pub owner : Project
    pub is_project :
        c.others.projects.find_one (λ p. p.id == project) s.others.projects ≡ ok (some owner)
    pub collaborators : List Collaborator
    pub is_collaborators :
        c.others.collaborators.find_many (λ k. k.project_id == project) s.others.collaborators
        ≡ ok collaborators
    pub fields :
        (m.project_id ≡ project)
        × (m.pattern_name ≡ pattern)
        × (m.user_id ≡ user)
        × (m.comment_text ≡ text)
        × (m.track ≡ not_negative track)
        × (m.start_bar ≡ not_negative start_bar)
    pub added :
        (p : PatternComment → Bool)
        → c.comments.count p s'.comments ≡ (if p m then 1 else 0) + c.comments.count p s.comments
    pub members : List String
    pub each_once :
        (u : String)
        → count (λ x. x == u) members ≡ (
            if owner.owner_id == u || ltb 0 (count (λ k. k.user_id == u) collaborators)
            then 1
            else 0)
    pub name : String
    pub told : s'.emitted ≡ s.emitted ++ copies (length members) (created project m name)
    pub others : s'.others ≡ s.others

  module _ (user project pattern text : String) (track start_bar : Option ℤ) (s : CommentDb c) where
    abbrev new_row : String → ℕ → PatternComment
    new_row id at = record {
      id = id;
      project_id = project;
      pattern_name = pattern;
      user_id = user;
      comment_text = text;
      track = position track;
      start_bar = position start_bar;
      created_at = at;
    }

    -- The run of a call that returns.
    create_comment-run :
        (p : Project) (t : c.comments.Table) (row : PatternComment) (author : Option User)
        (ks : List Collaborator)
        → (can_comment c.others user project s.others).0 ≡ ok true
        → c.others.projects.find_one (λ p. p.id == project) s.others.projects ≡ ok (some p)
        → c.comments.insert new_row s.comments ≡ ok (t, row)
        → (author_of c trim row.id (record s { comments = t })).0 ≡ ok author
        → c.others.collaborators.find_many (λ k. k.project_id == project) s.others.collaborators
          ≡ ok ks
        → create_comment c trim user project pattern text track start_bar s ≡ (
          ok row,
          record s {
            comments = t;
            emitted =
                s.emitted
                ++ copies
                    (length (members_of c trim (some p) ks))
                    (created project row (username_of trim author));
          },
        )
    unfolding create_comment
    create_comment-run p t row author ks e1 e2 e3 e4 e5 =
        let s' : CommentDb c = record s { comments = t } in
        ground (
          arith,
          e1,
          e2,
          e3,
          e4,
          e5,
          can_comment-reads user project s,
          author_of-reads row.id s',
          emit_for_each_lem (created project row (username_of trim author))
              (members_of c trim (some p) ks) s',
        )

    Goal : PatternComment → Type 0
    Goal m =
        Created user project pattern text track start_bar m s
          (create_comment c trim user project pattern text track start_bar s).1

    created_row :
        (m : PatternComment) (p : Project) (t : c.comments.Table) (row : PatternComment)
        (author : Option User) (ks : List Collaborator)
        → (can_comment c.others user project s.others).0 ≡ ok true
        → c.others.projects.find_one (λ p. p.id == project) s.others.projects ≡ ok (some p)
        → c.comments.insert new_row s.comments ≡ ok (t, row)
        → (author_of c trim row.id (record s { comments = t })).0 ≡ ok author
        → c.others.collaborators.find_many (λ k. k.project_id == project) s.others.collaborators
          ≡ ok ks
        → (create_comment c trim user project pattern text track start_bar s).0 ≡ ok m
        → Goal m
    unfolding Goal
    created_row m p t row author ks e1 e2 e3 e4 e5 done =
        let run = create_comment-run p t row author ks e1 e2 e3 e4 e5 in
        let same : row ≡ m = ground (arith, rw run at done) in
        let (id, at, made) = c.comments.insert-row new_row s.comments t row e3 in
        rw run (record {
          permitted = e1;
          owner = p;
          is_project = e2;
          collaborators = ks;
          is_collaborators = e5;
          fields =
              subst
                (λ (m : PatternComment).
                  (m.project_id ≡ project)
                  × (m.pattern_name ≡ pattern)
                  × (m.user_id ≡ user)
                  × (m.comment_text ≡ text)
                  × (m.track ≡ not_negative track)
                  × (m.start_bar ≡ not_negative start_bar))
                (sym made ∙ same)
                (
                  refl,
                  refl,
                  refl,
                  refl,
                  position-not_negative track,
                  position-not_negative start_bar,
                );
          added = λ q. rw (sym same) (c.comments.count-insert new_row q s.comments t row e3);
          members = members_of c trim (some p) ks;
          each_once = members_of-once c trim p ks;
          name = username_of trim author;
          told = rw same refl;
          others = refl;
        })

    looked_up :
        (m : PatternComment) (p : Project) (t : c.comments.Table) (row : PatternComment)
        → (can_comment c.others user project s.others).0 ≡ ok true
        → c.others.projects.find_one (λ p. p.id == project) s.others.projects ≡ ok (some p)
        → c.comments.insert new_row s.comments ≡ ok (t, row)
        → (create_comment c trim user project pattern text track start_bar s).0 ≡ ok m
        → Goal m
    unfolding create_comment
    looked_up m p t row e1 e2 e3 done =
        let s' : CommentDb c = record s { comments = t } in
        let reads = can_comment-reads user project s in
        let read = author_of-reads row.id s' in
        elim (Result-cases (author_of c trim row.id s').0) [
          | inr (x, e4) ↦ absurd (ground (arith, e1, e2, e3, e4, done, reads, read))
          | inl (author, e4) ↦
              elim (Result-cases (
                c.others.collaborators.find_many (λ k. k.project_id == project)
                  s.others.collaborators)) [
                    | inr (x, e5) ↦ absurd (ground (arith, e1, e2, e3, e4, e5, done, reads, read))
                    | inl (ks, e5) ↦ created_row m p t row author ks e1 e2 e3 e4 e5 done
                  ]
        ]

    -- When writing a comment returns: the user was permitted to comment on the project, which is
    -- there; the comment is a row more, with the user as its author and the position that was
    -- given, but where that is negative with none; and its event is emitted as often as there are
    -- members, the owner and the collaborators and nobody else, each counted once, though each
    -- emission goes to all.
    pub create_comment_lem :
        (m : PatternComment)
        → (create_comment c trim user project pattern text track start_bar s).0 ≡ ok m
        → Created user project pattern text track start_bar m s
            (create_comment c trim user project pattern text track start_bar s).1
    unfolding create_comment Goal
    create_comment_lem m done =
        let reads = can_comment-reads user project s in
        elim (Result-cases (can_comment c.others user project s.others).0) [
          | inr (x, e1) ↦ absurd (ground (arith, e1, done, reads))
          | inl (false, e1) ↦ absurd (ground (arith, e1, done, reads))
          | inl (true, e1) ↦
              elim (Result-cases
                (c.others.projects.find_one (λ p. p.id == project) s.others.projects)) [
                  | inr (x, e2) ↦ absurd (ground (arith, e1, e2, done, reads))
                  | inl (none, e2) ↦ absurd (ground (arith, e1, e2, done, reads))
                  | inl (some p, e2) ↦ elim (Result-cases (c.comments.insert new_row s.comments)) [
                    | inr (x, e3) ↦ absurd (ground (arith, e1, e2, e3, done, reads))
                    | inl ((t, row), e3) ↦ looked_up m p t row e1 e2 e3 done
                  ]
                ]
        ]

-- ===== src/Projects/Guards.antt =====
-- Who may call the operations of src/project/project.service.ts, and what a removal removes.
use starsyncbackend.Prelude.{
  String, Bool, true, false, not, ◌&&◌, ◌==◌, Option, ◌≡◌, ◌≢◌, refl, arith, ◌∙◌,
}
use starsyncbackend.Effect.{Result, ok, err, forbidden, bad_request, throw_if, found}
use starsyncbackend.Effect.Keeps.{bind_ok, bind_keeps, throw_if_keeps, lookup_keeps, found_keeps}
use starsyncbackend.Entities.{Collaborator, CollaboratorRole, Repositories, Db}
use starsyncbackend.Permission.{find_project, can_invite, can_delete}
use starsyncbackend.Projects.Invariant.{can_invite-reads, can_delete-reads}
use starsyncbackend.Projects.{
  delete_collaborators, delete_project, add_collaborator, remove_collaborator,
}

module _ (r : Repositories) where
  -- Where the check of the permission does not answer that the user may delete the project,
  -- deleteProject changes nothing, and where it does not answer that the user may invite to it,
  -- addCollaborator changes nothing.
  unpermitted :
      (user project other : String) (role : Option CollaboratorRole) (s : Db r)
      → ((can_delete r user project s).0 ≢ ok true → (delete_project r user project s).1 ≡ s)
        × ((can_invite r user project s).0 ≢ ok true
            → (add_collaborator r user project other role s).1 ≡ s)
  unfolding delete_project add_collaborator
  unpermitted user project other role s = (
    λ no.
        lookup_keeps (λ t. t ≡ s) (find_project r project) _ s (λ t. refl) refl
          λ p.
            found_keeps (λ t. t ≡ s) p _ _ s refl
              λ _ _.
                bind_keeps (λ t. t ≡ s) (can_delete r user project) _ s
                  (can_delete-reads r user project s)
                  λ may asked. rw (can_delete-reads r user project s) (
                    throw_if_keeps (λ t. t ≡ s) (not may) _ _ s refl
                      λ yes. absurd (no (ground (arith, asked, yes)))),
    λ no.
        lookup_keeps (λ t. t ≡ s) (find_project r project) _ s (λ t. refl) refl
          λ p.
            found_keeps (λ t. t ≡ s) p _ _ s refl
              λ _ _.
                bind_keeps (λ t. t ≡ s) (can_invite r user project) _ s
                  (can_invite-reads r user project s)
                  λ may asked. rw (can_invite-reads r user project s) (
                    throw_if_keeps (λ t. t ≡ s) (not may) _ _ s refl
                      λ yes. absurd (no (ground (arith, asked, yes)))),
  )

  delete_lem :
      (p q : Collaborator → Bool) (s : Db r)
      → (delete_collaborators r q s).0 ≡ ok tt
      → r.collaborators.count p (delete_collaborators r q s).1.collaborators
        ≡ r.collaborators.count (λ x. p x && not (q x)) s.collaborators
  delete_lem p q s done = go (r.collaborators.delete q s.collaborators) refl
    where
      go :
          (res : Result r.collaborators.Table)
          → r.collaborators.delete q s.collaborators ≡ res
          → r.collaborators.count p (delete_collaborators r q s).1.collaborators
            ≡ r.collaborators.count (λ x. p x && not (q x)) s.collaborators
      go (err x) e = absurd (ground (arith, e, done))
      go (ok t) e =
          rw (e, delete_collaborators) (r.collaborators.count-delete p q s.collaborators t e)

  -- A removal that returns is the deletion of the user's rows.
  removal :
      (owner project user : String) (s : Db r)
      → (remove_collaborator r owner project user s).0 ≡ ok tt
      → remove_collaborator r owner project user s
        ≡ delete_collaborators r (λ c. c.user_id == user) s
  unfolding remove_collaborator
  removal owner project user s done =
      let (p, looked, e1) = bind_ok (find_project r project) _ s tt done in
      let done1 = rw e1 at done in
      let (row, same, e2) = bind_ok (found p (bad_request "Project not exist")) _ s tt done1 in
      let kept : (found p (bad_request "Project not exist") s).1 ≡ s = ground (arith, same) in
      let done2 = rw kept at (rw e2 at done1) in
      let (u, passed, e3) =
        bind_ok (throw_if (not (row.owner_id == owner)) (forbidden "Not owner")) _ s tt done2 in
      let kept' : (throw_if (not (row.owner_id == owner)) (forbidden "Not owner") s).1 ≡ s =
        ground (arith, passed) in
      rw (e1, e2, kept, e3, kept')

  -- When the removal of a collaborator from one project returns, the user is a collaborator of no
  -- project any more; the number of rows that pass a test which no row of the user passes is as
  -- before.
  pub remove_collaborator_lem :
      (owner project user : String) (s : Db r)
      → (remove_collaborator r owner project user s).0 ≡ ok tt
      → let t = (remove_collaborator r owner project user s).1 in
        (r.collaborators.count (λ c. c.user_id == user) t.collaborators ≡ 0)
        × ((p : Collaborator → Bool)
            → ((c : Collaborator) → p c ≡ true → (c.user_id == user) ≡ false)
            → r.collaborators.count p t.collaborators ≡ r.collaborators.count p s.collaborators)
  remove_collaborator_lem owner project user s done =
      let of_user = λ (c : Collaborator). c.user_id == user in
      let same = removal owner project user s done in
      let deleted : (delete_collaborators r of_user s).0 ≡ ok tt = rw same at done in
      rw same (
        delete_lem of_user of_user s deleted
            ∙ r.collaborators.count-never (λ x. of_user x && not (of_user x)) s.collaborators
                (λ x. ground arith),
        λ p apart. ground (
          arith,
          delete_lem p of_user s deleted,
          r.collaborators.count_mono (λ x. p x && not (of_user x)) p s.collaborators
              (λ x h. ground arith),
          r.collaborators.count_mono p (λ x. p x && not (of_user x)) s.collaborators
              (λ x h. ground (arith, apart x h)),
        ),
      )

-- ===== src/Invitation/Lookups.antt =====
-- The lookups and checks of src/project/project-invitation.service.ts, and what follows them.
use starsyncbackend.Prelude.{String, ◌&&◌, Option, none, some, ◌==◌, ◌≡◌, refl, arith}
use starsyncbackend.Effect.{Effect, Result, ok, err, ◌>>=◌, ◌>>◌}
use starsyncbackend.Entities.{User, Project, ProjectInvitation, Repositories, Db}
use starsyncbackend.Invitation.{
  is_pending, waits, check_invitation, pending_for, notify_change, find_user, find_user_or_none,
  find_project_or_none,
}
use starsyncbackend.Invitation.Rows.{OneEach, check_lem}
use starsyncbackend.Effect.Keeps.{bind_keeps, lookup_keeps}

module _ (r : Repositories) where
  pub find_user_or_none-reads : (user : String) (t : Db r) → (find_user_or_none r user t).1 ≡ t
  unfolding find_user_or_none
  find_user_or_none-reads user t = refl

  pub find_project_or_none-reads :
      (project : String) (t : Db r) → (find_project_or_none r project t).1 ≡ t
  unfolding find_project_or_none
  find_project_or_none-reads project t = refl

  pub check_keeps :
      {B : Type 0} (inviter project invitee : String) (f : Project × User → Effect (Db r) B)
      (s : Db r)
      → OneEach r s
      → ((x : Project × User)
          → r.invitations.find_one (waits r project invitee) s.invitations ≡ ok none
          → OneEach r (f x s).1)
      → OneEach r ((check_invitation r inviter project invitee >>= f) s).1
  check_keeps inviter project invitee f s o rest =
      let checks = check_lem r inviter project invitee s in
      bind_keeps (OneEach r) (check_invitation r inviter project invitee) f s (rw checks.0 o)
        λ x h. rw checks.0 (rest x (checks.1 x h))

  -- The user's pending invitation is looked up, and the state is as before.
  pub pending_for_keeps :
      {B : Type 0} (user id : String) (f : ProjectInvitation → Effect (Db r) B) (s : Db r)
      → OneEach r s
      → ((i : ProjectInvitation)
          → r.invitations.find_one
              (λ i. i.id == id && i.invitee_id == user && is_pending i.status)
              s.invitations
            ≡ ok (some i)
          → OneEach r (f i s).1)
      → OneEach r ((pending_for r user id >>= f) s).1
  unfolding pending_for
  pending_for_keeps user id f s o rest =
      go
        (r.invitations.find_one (λ i. i.id == id && i.invitee_id == user && is_pending i.status)
          s.invitations)
        refl
    where
      go :
          (res : Result (Option ProjectInvitation))
          → r.invitations.find_one
              (λ i. i.id == id && i.invitee_id == user && is_pending i.status)
              s.invitations
            ≡ res
          → OneEach r ((pending_for r user id >>= f) s).1
      go (err x) e = ground (arith, e)
      go (ok none) e = ground (arith, e)
      go (ok (some i)) e = rw (e, pending_for) (rest i e)

  pub notify_change-OneEach :
      (i : ProjectInvitation) (status : String) (s : Db r)
      → OneEach r s
      → OneEach r (notify_change r i status s).1
  unfolding notify_change
  notify_change-OneEach i status s o = record { invited = o.invited; joined = o.joined }

  -- The lookups of the two users, and what follows them.
  pub names_keep :
      {B : Type 0} (i : ProjectInvitation) (f : Effect (Db r) B) (s : Db r)
      → OneEach r s
      → OneEach r (f s).1
      → OneEach r ((find_user r i.inviter_id >> (find_user r i.invitee_id >> f)) s).1
  names_keep i f s o rest =
      lookup_keeps (OneEach r) (find_user r i.inviter_id) _ s (λ t. refl) o
        λ _. lookup_keeps (OneEach r) (find_user r i.invitee_id) _ s (λ t. refl) o λ _. rest

-- ===== src/Invitation/Rows.antt =====
-- The rows of src/project/project-invitation.service.ts, call of the database by call.
use starsyncbackend.Prelude.{
  String, Bool, false, ◌&&◌, not, none, some, ◌==◌, ◌≡◌, ◌≤◌, refl, arith, eq_iff, eq_refl,
}
use starsyncbackend.Effect.{Result, ok, err}
use starsyncbackend.Entities.{
  User, Project, Collaborator, CollaboratorRole, ProjectInvitation, Status, Repositories, Db,
}
use starsyncbackend.Permission.{can_invite}
use starsyncbackend.Permission.Roles.{get_user_role-reads}
use starsyncbackend.Invitation.{
  is_pending, waits, check_invitation, may_invite, new_invitation, new_collaborator,
  insert_invitation, update_invitation, insert_collaborator, delete_invitation,
}

abbrev pub is_member : String → String → Collaborator → Bool
is_member project_id user_id c = c.project_id == project_id && c.user_id == user_id

-- At most one invitation of a user to a project waits, and a user is a collaborator of a project once.
pub record OneEach (r : Repositories) (s : Db r) : Type 0 where
  pub invited :
      (project user : String) → r.invitations.count (waits r project user) s.invitations ≤ 1
  pub joined :
      (project user : String) → r.collaborators.count (is_member project user) s.collaborators ≤ 1

module _ (r : Repositories) where
  pub may_invite-reads :
      (inviter project : String) (s : Db r) → (may_invite r inviter project s).1 ≡ s
  unfolding may_invite can_invite
  may_invite-reads inviter project s = ground (arith, get_user_role-reads r inviter project s)

  -- The checks change nothing, and pass only where no invitation waits.
  pub check_lem :
      (inviter project invitee : String) (s : Db r)
      → ((check_invitation r inviter project invitee s).1 ≡ s)
        × ((x : Project × User)
            → (check_invitation r inviter project invitee s).0 ≡ ok x
            → r.invitations.find_one (waits r project invitee) s.invitations ≡ ok none)
  unfolding check_invitation
  check_lem inviter project invitee s = (
    ground (arith, may_invite-reads inviter project s),
    λ x h. ground (arith, may_invite-reads inviter project s),
  )

  -- A new invitation, where none waited.
  pub insert_invitation-OneEach :
      (inviter project invitee : String) (role : CollaboratorRole) (s : Db r)
      → r.invitations.find_one (waits r project invitee) s.invitations ≡ ok none
      → OneEach r s
      → OneEach r (insert_invitation r (new_invitation r inviter project invitee role) s).1
  unfolding new_invitation
  insert_invitation-OneEach inviter project invitee role s free o =
      go (r.invitations.insert (new_invitation r inviter project invitee role) s.invitations) refl
    where
      go :
          (res : Result (r.invitations.Table × ProjectInvitation))
          → r.invitations.insert (new_invitation r inviter project invitee role) s.invitations ≡ res
          → OneEach r (insert_invitation r (new_invitation r inviter project invitee role) s).1
      go (err x) e = rw (e, insert_invitation) o
      go (ok (t, row)) e =
          let (id, at, same) = r.invitations.insert-row _ s.invitations t row e in
          rw (e, insert_invitation)
            (record {
              invited = λ p u. ground (
                arith,
                same,
                r.invitations.count-insert _ (waits r p u) s.invitations t row e,
                o.invited p u,
                r.invitations.find_one-none (waits r project invitee) s.invitations free,
                eq_iff project p,
                eq_iff invitee u,
              );
              joined = o.joined;
            })

  -- A pending invitation that is found gets another status.
  pub update_invitation-OneEach :
      (i : ProjectInvitation) (p : ProjectInvitation → Bool) (status : Status) (s : Db r)
      → r.invitations.find_one p s.invitations ≡ ok (some i)
      → is_pending status ≡ false
      → OneEach r s
      → OneEach r (update_invitation r (record i { status = status }) s).1
  update_invitation-OneEach i p status s there done o =
      go (r.invitations.update (record i { status = status }) s.invitations) refl
    where
      go :
          (res : Result r.invitations.Table)
          → r.invitations.update (record i { status = status }) s.invitations ≡ res
          → OneEach r (update_invitation r (record i { status = status }) s).1
      go (err x) e = rw (e, update_invitation) o
      go (ok t) e =
          let new : ProjectInvitation = record i { status = status } in
          let some_row =
            (r.invitations.find_one-some p s.invitations i there).1
              (λ x. r.invitations.id_of x == r.invitations.id_of new)
              (ground (arith, r.invitation_key i, r.invitation_key new, eq_refl i.id)) in
          rw (e, update_invitation)
            (record {
              invited = λ p u. ground (
                arith,
                done,
                r.invitations.count-update (waits r p u) new s.invitations t e some_row,
                o.invited p u,
                r.invitations.count_mono
                    (λ x. waits r p u x && not (r.invitations.id_of x == r.invitations.id_of new))
                    (waits r p u) s.invitations (λ x h. ground arith),
              );
              joined = o.joined;
            })

  -- A new collaborator leaves the invitations.
  pub insert_collaborator-rest :
      (i : ProjectInvitation) (s : Db r)
      → (insert_collaborator r (new_collaborator r i) s).1.invitations ≡ s.invitations
  insert_collaborator-rest i s = ground arith

  -- A new collaborator, who was none.
  pub insert_collaborator-OneEach :
      (i : ProjectInvitation) (s : Db r)
      → r.collaborators.find_one (is_member i.project_id i.invitee_id) s.collaborators ≡ ok none
      → OneEach r s
      → OneEach r (insert_collaborator r (new_collaborator r i) s).1
  unfolding new_collaborator
  insert_collaborator-OneEach i s free o =
      go (r.collaborators.insert (new_collaborator r i) s.collaborators) refl
    where
      go :
          (res : Result (r.collaborators.Table × Collaborator))
          → r.collaborators.insert (new_collaborator r i) s.collaborators ≡ res
          → OneEach r (insert_collaborator r (new_collaborator r i) s).1
      go (err x) e = rw (e, insert_collaborator) o
      go (ok (t, row)) e =
          let (id, at, same) = r.collaborators.insert-row _ s.collaborators t row e in
          rw (e, insert_collaborator)
            (record {
              invited = o.invited;
              joined = λ p u. ground (
                arith,
                same,
                r.collaborators.count-insert _ (is_member p u) s.collaborators t row e,
                o.joined p u,
                r.collaborators.find_one-none (is_member i.project_id i.invitee_id) s.collaborators
                    free,
                eq_iff i.project_id p,
                eq_iff i.invitee_id u,
              );
            })

  pub delete_invitation-OneEach :
      (id : String) (s : Db r) → OneEach r s → OneEach r (delete_invitation r id s).1
  delete_invitation-OneEach id s o = go (r.invitations.delete (λ i. i.id == id) s.invitations) refl
    where
      go :
          (res : Result r.invitations.Table)
          → r.invitations.delete (λ i. i.id == id) s.invitations ≡ res
          → OneEach r (delete_invitation r id s).1
      go (err x) e = rw (e, delete_invitation) o
      go (ok t) e =
          rw (e, delete_invitation)
            (record {
              invited = λ p u. ground (
                arith,
                r.invitations.count-delete (waits r p u) (λ i. i.id == id) s.invitations t e,
                o.invited p u,
                r.invitations.count_mono (λ x. waits r p u x && not (x.id == id)) (waits r p u)
                    s.invitations (λ x h. ground arith),
              );
              joined = o.joined;
            })

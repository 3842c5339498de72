-- ===== src/Invitation.antt =====
-- src/project/project-invitation.service.ts. Logging is left out. A call of the database may throw:
-- the `catch` blocks that do more than to log and throw again are `or_value` and `or_error`.
pub mod Rows
pub mod Lookups
pub mod Invariant
pub mod Listed
mod Examples
use starsyncbackend.Prelude.{
  ℕ, String, Bool, true, false, ◌&&◌, ◌||◌, not, Option, none, some, ◌==◌, if◌then◌else◌, is_some,
  get_or, List, [], ◌∷◌,
}
use starsyncbackend.Effect.{
  found, Effect, Result, Error, ok, err, forbidden, not_found, bad_request, ◌>>=◌, ◌>>◌, pure,
  throw, throw_if, query, or_value, or_error,
}
use starsyncbackend.Entities.{
  User, Project, Collaborator, CollaboratorRole, ProjectInvitation, Status, pending, accepted,
  rejected, Repositories, Db, Notice,
}
use starsyncbackend.Permission.{can_invite, find_project, find_collaborator}

abbrev pub is_pending : Status → Bool
is_pending pending = true
is_pending _ = false

-- What `sendInvitation` returns: the saved row, and whom and what it names.
pub record InvitationReply : Type 0 where
  pub invitation : ProjectInvitation
  pub project_name : String
  pub inviter : Option User
  pub invitee : User

module _ (r : Repositories) where
  abbrev pub find_user : String → Effect (Db r) (Option User)
  find_user user_id = query (λ s. r.users.find_one (λ u. u.id == user_id) s.users)

  abbrev pub find_invitation : (ProjectInvitation → Bool) → Effect (Db r) (Option ProjectInvitation)
  find_invitation p = query (λ s. r.invitations.find_one p s.invitations)

  abbrev pub insert_invitation : (String → ℕ → ProjectInvitation) → Effect (Db r) ProjectInvitation
  insert_invitation f s = elim (r.invitations.insert f s.invitations) [
    | ok (t, row) ↦ (ok row, record s { invitations = t })
    | err x ↦ (err x, s)
  ]

  abbrev pub update_invitation : ProjectInvitation → Effect (Db r) (Unit {0})
  update_invitation row s = elim (r.invitations.update row s.invitations) [
    | ok t ↦ (ok tt, record s { invitations = t })
    | err x ↦ (err x, s)
  ]

  abbrev pub delete_invitation : String → Effect (Db r) (Unit {0})
  delete_invitation id s = elim (r.invitations.delete (λ i. i.id == id) s.invitations) [
    | ok t ↦ (ok tt, record s { invitations = t })
    | err x ↦ (err x, s)
  ]

  abbrev pub insert_collaborator : (String → ℕ → Collaborator) → Effect (Db r) Collaborator
  insert_collaborator f s = elim (r.collaborators.insert f s.collaborators) [
    | ok (t, row) ↦ (ok row, record s { collaborators = t })
    | err x ↦ (err x, s)
  ]

  -- The gateway's errors are caught and logged.
  abbrev pub notify : Notice → Effect (Db r) (Unit {0})
  notify n s = (ok tt, record s { notices = n ∷ s.notices })

  abbrev no_permission : Error
  no_permission = forbidden "You do not have permission to invite users to this project"

  -- A failing permission check is no permission.
  pub may_invite : String → String → Effect (Db r) Bool
  may_invite inviter_id project_id s = (
    or_error (can_invite r inviter_id project_id s).0 no_permission,
    (can_invite r inviter_id project_id s).1,
  )

  -- An invitation that waits for an answer.
  abbrev pub waits : String → String → ProjectInvitation → Bool
  waits project_id invitee_id i =
      i.project_id == project_id && i.invitee_id == invitee_id && is_pending i.status

  pub new_invitation : String → String → String → CollaboratorRole → String → ℕ → ProjectInvitation
  new_invitation inviter_id project_id invitee_id role id created_at = record {
    id = id;
    project_id = project_id;
    inviter_id = inviter_id;
    invitee_id = invitee_id;
    role = role;
    status = pending;
    created_at = created_at;
  }

  -- The lookup of the inviter may fail: the reply then names none.
  pub find_user_or_none : String → Effect (Db r) (Option User)
  find_user_or_none user_id s = (or_value (r.users.find_one (λ u. u.id == user_id) s.users) none, s)

  -- So may the lookup of the project, for its name.
  pub find_project_or_none : String → Effect (Db r) (Option Project)
  find_project_or_none project_id s =
      (or_value (r.projects.find_one (λ p. p.id == project_id) s.projects) none, s)

  -- The checks of `sendInvitation`, in their order.
  pub check_invitation : String → String → String → Effect (Db r) (Project × User)
  unfolding may_invite
  check_invitation inviter_id project_id invitee_id = do
    may ← may_invite inviter_id project_id
    throw_if (not may) no_permission
    p ← find_project r project_id
    project ← found p (not_found "Project not found")
    u ← find_user invitee_id
    invitee ← found u (not_found "User not found")
    throw_if (inviter_id == invitee_id) (bad_request "You cannot invite yourself")
    c ← find_collaborator r project_id invitee_id
    throw_if (is_some c) (bad_request "User is already a collaborator")
    i ← find_invitation (waits project_id invitee_id)
    throw_if (is_some i) (bad_request "Invitation already sent")
    pure (project, invitee)

  pub send_invitation : String → String → String → CollaboratorRole → Effect (Db r) InvitationReply
  unfolding check_invitation new_invitation find_user_or_none
  send_invitation inviter_id project_id invitee_id role = do
    checked ← check_invitation inviter_id project_id invitee_id
    saved ← insert_invitation (new_invitation inviter_id project_id invitee_id role)
    inviter ← find_user_or_none inviter_id
    notify (record {
      to = invitee_id;
      kind = "projectInvitationReceived";
      about = saved.id;
      status = "pending";
    })
    pure (record {
      invitation = saved;
      project_name = checked.0.name;
      inviter = inviter;
      invitee = checked.1;
    })

  -- The notices to both users at a change of status.
  pub notify_change : ProjectInvitation → String → Effect (Db r) (Unit {0})
  notify_change i status = do
    notify (record {
      to = i.inviter_id;
      kind = "projectInvitationStatusChanged";
      about = i.id;
      status = status;
    })
    notify (record {
      to = i.invitee_id;
      kind = "projectInvitationStatusChanged";
      about = i.id;
      status = status;
    })

  -- The user's own pending invitation of this id.
  pub pending_for : String → String → Effect (Db r) ProjectInvitation
  pending_for user_id invitation_id = do
    i ←
        find_invitation
          (λ i. i.id == invitation_id && i.invitee_id == user_id && is_pending i.status)
    found i (not_found "Invitation not found")

  pub new_collaborator : ProjectInvitation → String → ℕ → Collaborator
  new_collaborator i id created_at = record {
    id = id;
    project_id = i.project_id;
    user_id = i.invitee_id;
    role = i.role;
  }

  pub accept_invitation : String → String → Effect (Db r) Collaborator
  unfolding pending_for new_collaborator find_project_or_none notify_change
  accept_invitation user_id invitation_id = do
    i ← pending_for user_id invitation_id
    c ← find_collaborator r i.project_id i.invitee_id
    throw_if (is_some c) (bad_request "Already a collaborator")
    collaborator ← insert_collaborator (new_collaborator i)
    update_invitation (record i { status = accepted })
    find_project_or_none i.project_id
    find_user i.inviter_id
    find_user i.invitee_id
    notify_change i "accepted"
    pure collaborator

  pub reject_invitation : String → String → Effect (Db r) (Unit {0})
  unfolding pending_for notify_change
  reject_invitation user_id invitation_id = do
    i ← pending_for user_id invitation_id
    update_invitation (record i { status = rejected })
    find_project r i.project_id
    find_user i.inviter_id
    find_user i.invitee_id
    notify_change i "rejected"

  pub cancel_invitation : String → String → Effect (Db r) (Unit {0})
  unfolding notify_change
  cancel_invitation user_id invitation_id = do
    found_one ←
        find_invitation
          (λ i. i.id == invitation_id && i.inviter_id == user_id && is_pending i.status)
    i ← found found_one (not_found "Invitation not found")
    find_project r i.project_id
    find_user i.inviter_id
    find_user i.invitee_id
    delete_invitation invitation_id
    notify_change i "cancelled"

-- ===== src/Invitation/Listed.antt =====
-- `getInvitations` of src/project/project-invitation.service.ts: the invitations that a user has sent and
-- received, with what is shown of the project and of the other user. The order in which they are sorted
-- is left out.
use starsyncbackend.Prelude.{String, List, Option, none, some, ◌==◌}
use starsyncbackend.Effect.{Effect, ◌>>=◌, pure, query, each}
use starsyncbackend.Entities.{User, ProjectInvitation, Repositories, Db}
use starsyncbackend.Permission.{find_project}
use starsyncbackend.Invitation.{find_user}

-- What is shown of a user: `none` for what `?.` leaves undefined. The hash of the password is not.
pub record ShownUser : Type 0 where
  pub id : Option String
  pub username : Option String
  pub email : Option String
  pub first_name : Option String
  pub last_name : Option String

unfoldable pub shown : Option User → ShownUser
shown none = record {
  id = none;
  username = none;
  email = none;
  first_name = none;
  last_name = none;
}
shown (some u) = record {
  id = some u.id;
  username = some u.username;
  email = some u.email;
  first_name = some u.first_name;
  last_name = some u.last_name;
}

-- `other` is the invitee of an invitation that was sent, the inviter of one that was received.
pub record InvitationDetails : Type 0 where
  pub invitation : ProjectInvitation
  pub project_name : Option String
  pub other : ShownUser

pub record Invitations : Type 0 where
  pub sent : List InvitationDetails
  pub received : List InvitationDetails

module _ (r : Repositories) where
  unfoldable pub invitation_details :
      (ProjectInvitation → String) → ProjectInvitation → Effect (Db r) InvitationDetails
  unfolding shown
  invitation_details other_of i = do
    project ← find_project r i.project_id
    other ← find_user r (other_of i)
    pure (record {
      invitation = i;
      project_name = elim project [ none ↦ none | some p ↦ some p.name ];
      other = shown other;
    })

  unfoldable pub get_invitations : String → Effect (Db r) Invitations
  unfolding invitation_details each
  get_invitations user_id = do
    sent_invitations ←
        query (λ s. r.invitations.find_many (λ i. i.inviter_id == user_id) s.invitations)
    received_invitations ←
        query (λ s. r.invitations.find_many (λ i. i.invitee_id == user_id) s.invitations)
    sent ← each (invitation_details (λ i. i.invitee_id)) sent_invitations
    received ← each (invitation_details (λ i. i.inviter_id)) received_invitations
    pure (record { sent = sent; received = received })

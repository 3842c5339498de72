-- ===== src/Entities.antt =====
-- src/libs/entities: the rows of the tables that the services read and write, and the database, a
-- table for each repository. Dates are numbers.
pub mod Sample
use starsyncbackend.Prelude.{ℕ, String, List, ◌≡◌}
use starsyncbackend.Database.{Repository}

pub record User : Type 0 where
  pub id : String
  pub username : String
  pub email : String
  pub password : String
  pub first_name : String
  pub last_name : String

pub record Project : Type 0 where
  pub id : String
  pub owner_id : String
  pub name : String
  pub notes : String

pub data CollaboratorRole : Type 0 where
  owner editor viewer commenter : CollaboratorRole

pub record Collaborator : Type 0 where
  pub id : String
  pub project_id : String
  pub user_id : String
  pub role : CollaboratorRole

pub data Status : Type 0 where
  pending accepted rejected : Status

pub record ProjectInvitation : Type 0 where
  pub id : String
  pub project_id : String
  pub inviter_id : String
  pub invitee_id : String
  pub role : CollaboratorRole
  pub status : Status
  pub created_at : ℕ

pub record Friend : Type 0 where
  pub id : String
  pub user1 : String
  pub user2 : String
  pub created_at : ℕ

pub record FriendRequest : Type 0 where
  pub id : String
  pub sender_id : String
  pub receiver_id : String
  pub status : Status
  pub created_at : ℕ

pub record Repositories : Type 1 where
  pub users : Repository User
  pub projects : Repository Project
  pub collaborators : Repository Collaborator
  pub invitations : Repository ProjectInvitation
  pub friends : Repository Friend
  pub friend_requests : Repository FriendRequest
  pub invitation_key : (i : ProjectInvitation) → invitations.id_of i ≡ i.id
  pub friend_request_key : (i : FriendRequest) → friend_requests.id_of i ≡ i.id

-- A notice to a user over the notification gateway: its kind, what it is about, and its status.
pub record Notice : Type 0 where
  pub to : String
  pub kind : String
  pub about : String
  pub status : String

pub record Db (r : Repositories) : Type 0 where
  pub users : r.users.Table
  pub projects : r.projects.Table
  pub collaborators : r.collaborators.Table
  pub invitations : r.invitations.Table
  pub friends : r.friends.Table
  pub friend_requests : r.friend_requests.Table
  pub notices : List Notice

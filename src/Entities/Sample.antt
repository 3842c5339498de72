-- ===== src/Entities/Sample.antt =====
-- Repositories in memory, and rows of users, for the examples.
use starsyncbackend.Prelude.{String, refl}
use starsyncbackend.Database.InMemory.{in_memory}
use starsyncbackend.Entities.{
  User, Project, Collaborator, ProjectInvitation, Friend, FriendRequest, Repositories,
}

unfoldable pub repositories : Repositories
unfolding in_memory
repositories = record {
  users = in_memory (λ (u : User). u.id);
  projects = in_memory (λ (p : Project). p.id);
  collaborators = in_memory (λ (c : Collaborator). c.id);
  invitations = in_memory (λ (i : ProjectInvitation). i.id);
  friends = in_memory (λ (f : Friend). f.id);
  friend_requests = in_memory (λ (f : FriendRequest). f.id);
  invitation_key = λ i. refl;
  friend_request_key = λ i. refl;
}

abbrev pub user : String → User
user id = record {
  id = id;
  username = id;
  email = "";
  password = "";
  first_name = "";
  last_name = "";
}

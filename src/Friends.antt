-- ===== src/Friends.antt =====
-- src/friend/friend.service.ts: friends, and the requests that lead to them. What a method returns
-- besides the rows it saves is left out.
pub mod Requests
pub mod History
pub mod Pairs
pub mod Listed
pub mod Removed
mod Examples
use starsyncbackend.Prelude.{
  ℕ, String, Bool, true, false, ◌&&◌, ◌||◌, Option, none, some, ◌==◌, is_some, List, [], ◌∷◌,
}
use starsyncbackend.Effect.{
  Effect, Result, Error, ok, err, not_found, bad_request, ◌>>=◌, ◌>>◌, pure, throw, throw_if, query,
  found,
}
use starsyncbackend.Entities.{
  User, Friend, FriendRequest, Status, pending, accepted, rejected, Repositories, Db, Notice,
}
use starsyncbackend.Invitation.{is_pending, find_user, notify}

-- The row makes the two users friends, the first of them first.
abbrev pub links : String → String → Friend → Bool
links a b f = f.user1 == a && f.user2 == b

-- A request of the one to the other that waits for an answer.
abbrev pub asks : String → String → FriendRequest → Bool
asks a b q = q.sender_id == a && q.receiver_id == b && is_pending q.status

-- The `where` of two alternatives.
abbrev pub asks_between : String → String → FriendRequest → Bool
asks_between a b q = asks a b q || asks b a q

module _ (r : Repositories) where
  abbrev pub find_friend : (Friend → Bool) → Effect (Db r) (Option Friend)
  find_friend p = query (λ s. r.friends.find_one p s.friends)

  abbrev pub find_request : (FriendRequest → Bool) → Effect (Db r) (Option FriendRequest)
  find_request p = query (λ s. r.friend_requests.find_one p s.friend_requests)

  abbrev pub insert_friend : (String → ℕ → Friend) → Effect (Db r) Friend
  insert_friend f s = elim (r.friends.insert f s.friends) [
    | ok (t, row) ↦ (ok row, record s { friends = t })
    | err x ↦ (err x, s)
  ]

  abbrev pub delete_friends : (Friend → Bool) → Effect (Db r) (Unit {0})
  delete_friends p s = elim (r.friends.delete p s.friends) [
    | ok t ↦ (ok tt, record s { friends = t })
    | err x ↦ (err x, s)
  ]

  abbrev pub insert_request : (String → ℕ → FriendRequest) → Effect (Db r) FriendRequest
  insert_request f s = elim (r.friend_requests.insert f s.friend_requests) [
    | ok (t, row) ↦ (ok row, record s { friend_requests = t })
    | err x ↦ (err x, s)
  ]

  abbrev pub update_request : FriendRequest → Effect (Db r) (Unit {0})
  update_request row s = elim (r.friend_requests.update row s.friend_requests) [
    | ok t ↦ (ok tt, record s { friend_requests = t })
    | err x ↦ (err x, s)
  ]

  abbrev pub delete_request : String → Effect (Db r) (Unit {0})
  delete_request id s = elim (r.friend_requests.delete (λ q. q.id == id) s.friend_requests) [
    | ok t ↦ (ok tt, record s { friend_requests = t })
    | err x ↦ (err x, s)
  ]

  pub new_friend : String → String → String → ℕ → Friend
  new_friend user1 user2 id created_at = record {
    id = id;
    user1 = user1;
    user2 = user2;
    created_at = created_at;
  }

  pub new_request : String → String → String → ℕ → FriendRequest
  new_request sender_id receiver_id id created_at = record {
    id = id;
    sender_id = sender_id;
    receiver_id = receiver_id;
    status = pending;
    created_at = created_at;
  }

  pub add_friend : String → String → Effect (Db r) Friend
  unfolding new_friend
  add_friend user_id friend_user_name = do
    u ← query (λ s. r.users.find_one (λ u. u.username == friend_user_name) s.users)
    user ← found u (bad_request "Username doesn't exist")
    throw_if (user_id == user.id) (bad_request "You cannot add yourself as a friend")
    f ← find_friend (links user_id user.id)
    throw_if (is_some f) (bad_request "Already added")
    f ← find_friend (links user.id user_id)
    throw_if (is_some f) (bad_request "Already added")
    insert_friend (new_friend user_id user.id)

  pub remove_friend : String → String → Effect (Db r) (Unit {0})
  remove_friend user_id friend_id = do
    delete_friends (links user_id friend_id)
    delete_friends (links friend_id user_id)

  pub send_friend_request : String → String → Effect (Db r) FriendRequest
  unfolding new_request
  send_friend_request sender_id receiver_id = do
    throw_if (sender_id == receiver_id) (bad_request "You cannot send a friend request to yourself")
    u ← find_user r receiver_id
    receiver ← found u (not_found "User not found")
    f1 ← find_friend (links sender_id receiver_id)
    f2 ← find_friend (links receiver_id sender_id)
    throw_if (is_some f1 || is_some f2) (bad_request "Already friends")
    q ← find_request (asks_between sender_id receiver_id)
    throw_if (is_some q) (bad_request "Friend request already exists")
    saved ← insert_request (new_request sender_id receiver_id)
    find_user r sender_id
    notify r (record {
      to = receiver_id;
      kind = "friendRequestReceived";
      about = saved.id;
      status = "pending";
    })
    pure saved

  -- The notices to both users at a change of status.
  pub notify_both : FriendRequest → String → Effect (Db r) (Unit {0})
  notify_both q status = do
    notify r (record {
      to = q.sender_id;
      kind = "friendRequestStatusChanged";
      about = q.id;
      status = status;
    })
    notify r (record {
      to = q.receiver_id;
      kind = "friendRequestStatusChanged";
      about = q.id;
      status = status;
    })

  pub accept_friend_request : String → String → Effect (Db r) Friend
  unfolding new_friend notify_both
  accept_friend_request user_id request_id = do
    q ← find_request (λ q. q.id == request_id && q.receiver_id == user_id && is_pending q.status)
    request ← found q (not_found "Friend request not found")
    friend ← insert_friend (new_friend request.sender_id request.receiver_id)
    update_request (record request { status = accepted })
    find_user r request.sender_id
    find_user r request.receiver_id
    notify_both request "accepted"
    pure friend

  pub reject_friend_request : String → String → Effect (Db r) (Unit {0})
  unfolding notify_both
  reject_friend_request user_id request_id = do
    q ← find_request (λ q. q.id == request_id && q.receiver_id == user_id && is_pending q.status)
    request ← found q (not_found "Friend request not found")
    update_request (record request { status = rejected })
    find_user r request.sender_id
    find_user r request.receiver_id
    notify_both request "rejected"

  pub cancel_friend_request : String → String → Effect (Db r) (Unit {0})
  unfolding notify_both
  cancel_friend_request user_id request_id = do
    q ← find_request (λ q. q.id == request_id && q.sender_id == user_id && is_pending q.status)
    request ← found q (not_found "Friend request not found")
    find_user r request.sender_id
    find_user r request.receiver_id
    delete_request request_id
    notify_both request "cancelled"

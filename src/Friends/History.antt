-- ===== src/Friends/History.antt =====
-- Histories of calls of src/friend/friend.service.ts, and the requests that wait after them.
use starsyncbackend.Prelude.{
  ℕ, String, Bool, ◌&&◌, ◌||◌, some, ◌==◌, is_some, List, [], ◌∷◌, ◌≡◌, refl, arith,
}
use starsyncbackend.Effect.{Effect, ok, not_found, ◌>>=◌, ◌>>◌, pure, query, found}
use starsyncbackend.Effect.Keeps.{bind_keeps, throw_if_keeps, lookup_keeps, found_keeps}
use starsyncbackend.Entities.{Friend, FriendRequest, accepted, rejected, Repositories, Db}
use starsyncbackend.Invitation.{is_pending, find_user}
use starsyncbackend.Friends.{
  links, asks_between, find_friend, find_request, insert_friend, delete_friends, insert_request,
  update_request, delete_request, new_friend, new_request, add_friend, remove_friend,
  send_friend_request, notify_both, accept_friend_request, reject_friend_request,
  cancel_friend_request,
}
use starsyncbackend.Friends.Requests.{
  OneRequest, insert_request-OneRequest, update_request-OneRequest, delete_request-OneRequest,
}

module _ (r : Repositories) where
  insert_friend-OneRequest :
      (f : String → ℕ → Friend) (s : Db r) → OneRequest r s → OneRequest r (insert_friend r f s).1
  insert_friend-OneRequest f s o = record { once = λ a b. ground (arith, o.once a b) }

  insert_friend-rest :
      (f : String → ℕ → Friend) (s : Db r)
      → (insert_friend r f s).1.friend_requests ≡ s.friend_requests
  insert_friend-rest f s = ground arith

  delete_friends-OneRequest :
      (p : Friend → Bool) (s : Db r) → OneRequest r s → OneRequest r (delete_friends r p s).1
  delete_friends-OneRequest p s o = record { once = λ a b. ground (arith, o.once a b) }

  -- The lookups of the two users, and what follows them.
  names_keep :
      {B : Type 0} (q : FriendRequest) (f : Effect (Db r) B) (s : Db r)
      → OneRequest r s
      → OneRequest r (f s).1
      → OneRequest r ((find_user r q.sender_id >> (find_user r q.receiver_id >> f)) s).1
  names_keep q f s o rest =
      lookup_keeps (OneRequest r) (find_user r q.sender_id) _ s (λ t. refl) o
        λ _. lookup_keeps (OneRequest r) (find_user r q.receiver_id) _ s (λ t. refl) o λ _. rest

  notify_both-OneRequest :
      (q : FriendRequest) (status : String) (s : Db r)
      → OneRequest r s
      → OneRequest r (notify_both r q status s).1
  unfolding notify_both
  notify_both-OneRequest q status s o = record { once = o.once }

  -- A pending request is looked up, and the state is as before.
  pending_keeps :
      {B : Type 0} (p : FriendRequest → Bool) (f : FriendRequest → Effect (Db r) B) (s : Db r)
      → OneRequest r s
      → ((q : FriendRequest)
          → r.friend_requests.find_one p s.friend_requests ≡ ok (some q)
          → OneRequest r (f q s).1)
      → OneRequest r
          ((find_request r p >>= λ q. found q (not_found "Friend request not found") >>= f) s).1
  pending_keeps p f s o rest = bind_keeps (OneRequest r) (find_request r p) _ s o λ row looked.
      found_keeps (OneRequest r) row (not_found "Friend request not found") f s o
        λ q same. rest q (ground (arith, looked, same))

  add_friend-OneRequest :
      (user name : String) (s : Db r) → OneRequest r s → OneRequest r (add_friend r user name s).1
  unfolding add_friend
  add_friend-OneRequest user name s o =
      lookup_keeps (OneRequest r)
        (query (λ (s : Db r). r.users.find_one (λ u. u.username == name) s.users)) _ s (λ t. refl) o
        λ u. found_keeps (OneRequest r) u _ _ s o λ friend _.
          throw_if_keeps (OneRequest r) (user == friend.id) _ _ s o λ _.
            lookup_keeps (OneRequest r) (find_friend r (links user friend.id)) _ s (λ t. refl) o
              λ f1. throw_if_keeps (OneRequest r) (is_some f1) _ _ s o λ _.
                lookup_keeps (OneRequest r) (find_friend r (links friend.id user)) _ s (λ t. refl) o
                  λ f2.
                    throw_if_keeps (OneRequest r) (is_some f2) _ _ s o
                      λ _. insert_friend-OneRequest (new_friend r user friend.id) s o

  remove_friend-OneRequest :
      (user friend : String) (s : Db r)
      → OneRequest r s
      → OneRequest r (remove_friend r user friend s).1
  unfolding remove_friend
  remove_friend-OneRequest user friend s o =
      let o' = delete_friends-OneRequest (links user friend) s o in
      bind_keeps (OneRequest r) (delete_friends r (links user friend)) _ s o'
        λ _ _. delete_friends-OneRequest (links friend user) _ o'

  send_friend_request-OneRequest :
      (sender receiver : String) (s : Db r)
      → OneRequest r s
      → OneRequest r (send_friend_request r sender receiver s).1
  unfolding send_friend_request
  send_friend_request-OneRequest sender receiver s o =
      throw_if_keeps (OneRequest r) (sender == receiver) _ _ s o λ _.
        lookup_keeps (OneRequest r) (find_user r receiver) _ s (λ t. refl) o
          λ u. found_keeps (OneRequest r) u _ _ s o λ _ _.
            lookup_keeps (OneRequest r) (find_friend r (links sender receiver)) _ s (λ t. refl) o
              λ f1.
                lookup_keeps (OneRequest r) (find_friend r (links receiver sender)) _ s (λ t. refl)
                  o
                  λ f2. throw_if_keeps (OneRequest r) (is_some f1 || is_some f2) _ _ s o λ _.
                    bind_keeps (OneRequest r) (find_request r (asks_between sender receiver)) _ s o
                      λ q looked. throw_if_keeps (OneRequest r) (is_some q) _ _ s o λ free.
                        let o' =
                          insert_request-OneRequest r sender receiver s
                            (ground (arith, looked, free)) o in
                        bind_keeps (OneRequest r) (insert_request r (new_request r sender receiver))
                          _ s o'
                          λ saved _.
                            lookup_keeps (OneRequest r) (find_user r sender) _ _ (λ t. refl) o'
                              λ _. record { once = o'.once }

  reject_friend_request-OneRequest :
      (user id : String) (s : Db r)
      → OneRequest r s
      → OneRequest r (reject_friend_request r user id s).1
  unfolding reject_friend_request
  reject_friend_request-OneRequest user id s o = pending_keeps _ _ s o λ q there.
      let o' = update_request-OneRequest r q _ rejected s there refl o in
      bind_keeps (OneRequest r) (update_request r (record q { status = rejected })) _ s o' λ _ _.
        names_keep q (notify_both r q "rejected") _ o' (notify_both-OneRequest q "rejected" _ o')

  cancel_friend_request-OneRequest :
      (user id : String) (s : Db r)
      → OneRequest r s
      → OneRequest r (cancel_friend_request r user id s).1
  unfolding cancel_friend_request
  cancel_friend_request-OneRequest user id s o = pending_keeps _ _ s o λ q there.
      names_keep q (delete_request r id >> notify_both r q "cancelled") s o (
        bind_keeps (OneRequest r) (delete_request r id) _ s (delete_request-OneRequest r id s o)
          λ _ _. notify_both-OneRequest q "cancelled" _ (delete_request-OneRequest r id s o))

  accept_friend_request-OneRequest :
      (user id : String) (s : Db r)
      → OneRequest r s
      → OneRequest r (accept_friend_request r user id s).1
  unfolding accept_friend_request
  accept_friend_request-OneRequest user id s o = pending_keeps _ _ s o λ q there.
      let f = new_friend r q.sender_id q.receiver_id in
      let o1 = insert_friend-OneRequest f s o in
      bind_keeps (OneRequest r) (insert_friend r f) _ s o1 λ friend _.
        let o2 =
          update_request-OneRequest r q
            (λ q. q.id == id && q.receiver_id == user && is_pending q.status) accepted
            (insert_friend r f s).1 (rw (insert_friend-rest f s) there) refl o1 in
        bind_keeps (OneRequest r) (update_request r (record q { status = accepted })) _ _ o2 λ _ _.
          names_keep q (notify_both r q "accepted" >> pure friend) _ o2 (
            bind_keeps (OneRequest r) (notify_both r q "accepted") (λ _. pure friend) _
              (notify_both-OneRequest q "accepted" _ o2)
              λ _ _. notify_both-OneRequest q "accepted" _ o2)

-- A call of the service, by a user.
pub data Call : Type 0 where
  add remove send accept reject cancel : String → String → Call

pub step : (r : Repositories) → Call → Db r → Db r
step r (add user name) s = (add_friend r user name s).1
step r (remove user friend) s = (remove_friend r user friend s).1
step r (send sender receiver) s = (send_friend_request r sender receiver s).1
step r (accept user id) s = (accept_friend_request r user id s).1
step r (reject user id) s = (reject_friend_request r user id s).1
step r (cancel user id) s = (cancel_friend_request r user id s).1

pub run : (r : Repositories) → List Call → Db r → Db r
run r [] s = s
run r (c ∷ cs) s = run r cs (step r c s)

step-OneRequest :
    (r : Repositories) (c : Call) (s : Db r) → OneRequest r s → OneRequest r (step r c s)
unfolding step
step-OneRequest r (add user name) s o = add_friend-OneRequest r user name s o
step-OneRequest r (remove user friend) s o = remove_friend-OneRequest r user friend s o
step-OneRequest r (send sender receiver) s o = send_friend_request-OneRequest r sender receiver s o
step-OneRequest r (accept user id) s o = accept_friend_request-OneRequest r user id s o
step-OneRequest r (reject user id) s o = reject_friend_request-OneRequest r user id s o
step-OneRequest r (cancel user id) s o = cancel_friend_request-OneRequest r user id s o

-- From a database in which at most one friend request waits between any two users, whoever sent it,
-- every history of calls of the friend service, each run to its end, leads to such a database, also
-- where a check refuses a call or a call of the database fails half-way.
pub run-OneRequest :
    (r : Repositories) (cs : List Call) (s : Db r) → OneRequest r s → OneRequest r (run r cs s)
unfolding run
run-OneRequest r [] s o = o
run-OneRequest r (c ∷ cs) s o = run-OneRequest r cs (step r c s) (step-OneRequest r c s o)

-- ===== src/Friends/Requests.antt =====
-- The requests that wait between two users, over the calls of the database that
-- src/friend/friend.service.ts makes.
use starsyncbackend.Prelude.{
  String, Bool, false, ◌&&◌, not, none, some, ◌==◌, ◌≡◌, ◌≤◌, refl, arith, eq_iff, eq_refl,
  Bool-cases, inl, inr,
}
use starsyncbackend.Effect.{Result, ok, err}
use starsyncbackend.Entities.{FriendRequest, Status, Repositories, Db}
use starsyncbackend.Invitation.{is_pending}
use starsyncbackend.Friends.{
  asks_between, insert_request, update_request, delete_request, new_request,
}

-- At most one request, of the one to the other or back, waits between two users.
pub record OneRequest (r : Repositories) (s : Db r) : Type 0 where
  pub once : (a b : String) → r.friend_requests.count (asks_between a b) s.friend_requests ≤ 1

module _ (r : Repositories) where
  pub insert_request-OneRequest :
      (sender receiver : String) (s : Db r)
      → r.friend_requests.find_one (asks_between sender receiver) s.friend_requests ≡ ok none
      → OneRequest r s
      → OneRequest r (insert_request r (new_request r sender receiver) s).1
  unfolding new_request
  insert_request-OneRequest sender receiver s free o =
      go (r.friend_requests.insert (new_request r sender receiver) s.friend_requests) refl
    where
      go :
          (res : Result (r.friend_requests.Table × FriendRequest))
          → r.friend_requests.insert (new_request r sender receiver) s.friend_requests ≡ res
          → OneRequest r (insert_request r (new_request r sender receiver) s).1
      go (err x) e = rw (e, insert_request) o
      go (ok (t, row)) e =
          let (id, at, same) = r.friend_requests.insert-row _ s.friend_requests t row e in
          let none_waits =
            r.friend_requests.find_one-none (asks_between sender receiver) s.friend_requests free in
          rw (e, insert_request)
            (record {
              once = λ a b.
                  let counted =
                    r.friend_requests.count-insert _ (asks_between a b) s.friend_requests t row e in
                  elim (Bool-cases (asks_between a b row)) [
                    | inl y ↦
                        let fewer =
                          r.friend_requests.count_mono (asks_between a b)
                            (asks_between sender receiver) s.friend_requests
                            (λ x h. ground (
                              arith,
                              y,
                              same,
                              h,
                              eq_iff sender a,
                              eq_iff sender b,
                              eq_iff receiver a,
                              eq_iff receiver b,
                            )) in
                        ground (arith, counted, y, none_waits, fewer)
                    | inr n ↦ ground (arith, counted, n, o.once a b)
                  ];
            })

  pub update_request-OneRequest :
      (q : FriendRequest) (p : FriendRequest → Bool) (status : Status) (s : Db r)
      → r.friend_requests.find_one p s.friend_requests ≡ ok (some q)
      → is_pending status ≡ false
      → OneRequest r s
      → OneRequest r (update_request r (record q { status = status }) s).1
  update_request-OneRequest q p status s there done o =
      go (r.friend_requests.update (record q { status = status }) s.friend_requests) refl
    where
      go :
          (res : Result r.friend_requests.Table)
          → r.friend_requests.update (record q { status = status }) s.friend_requests ≡ res
          → OneRequest r (update_request r (record q { status = status }) s).1
      go (err x) e = rw (e, update_request) o
      go (ok t) e =
          let new : FriendRequest = record q { status = status } in
          let some_row =
            (r.friend_requests.find_one-some p s.friend_requests q there).1
              (λ x. r.friend_requests.id_of x == r.friend_requests.id_of new)
              (ground (arith, r.friend_request_key q, r.friend_request_key new, eq_refl q.id)) in
          rw (e, update_request)
            (record {
              once = λ a b. ground (
                arith,
                done,
                r.friend_requests.count-update (asks_between a b) new s.friend_requests t e
                    some_row,
                o.once a b,
                r.friend_requests.count_mono
                    (λ x.
                      asks_between a b x
                      && not (r.friend_requests.id_of x == r.friend_requests.id_of new))
                    (asks_between a b) s.friend_requests (λ x h. ground arith),
              );
            })

  pub delete_request-OneRequest :
      (id : String) (s : Db r) → OneRequest r s → OneRequest r (delete_request r id s).1
  delete_request-OneRequest id s o =
      go (r.friend_requests.delete (λ q. q.id == id) s.friend_requests) refl
    where
      go :
          (res : Result r.friend_requests.Table)
          → r.friend_requests.delete (λ q. q.id == id) s.friend_requests ≡ res
          → OneRequest r (delete_request r id s).1
      go (err x) e = rw (e, delete_request) o
      go (ok t) e =
          rw (e, delete_request)
            (record {
              once = λ a b. ground (
                arith,
                r.friend_requests.count-delete (asks_between a b) (λ q. q.id == id)
                    s.friend_requests t e,
                o.once a b,
                r.friend_requests.count_mono (λ x. asks_between a b x && not (x.id == id))
                    (asks_between a b) s.friend_requests (λ x h. ground arith),
              );
            })

-- ===== src/Invitation/Invariant.antt =====
-- Histories of calls of src/project/project-invitation.service.ts, and the rows after them.
use starsyncbackend.Prelude.{String, ◌&&◌, ◌==◌, is_some, List, [], ◌∷◌, refl, arith}
use starsyncbackend.Effect.{◌>>◌, pure, bad_request, not_found}
use starsyncbackend.Entities.{CollaboratorRole, accepted, rejected, Repositories, Db}
use starsyncbackend.Permission.{find_project, find_collaborator}
use starsyncbackend.Invitation.{
  is_pending, send_invitation, accept_invitation, reject_invitation, cancel_invitation,
  new_invitation, new_collaborator, insert_invitation, update_invitation, insert_collaborator,
  delete_invitation, notify_change, find_user_or_none, find_project_or_none, find_invitation,
}
use starsyncbackend.Invitation.Rows.{
  OneEach, insert_invitation-OneEach, update_invitation-OneEach, insert_collaborator-OneEach,
  insert_collaborator-rest, delete_invitation-OneEach,
}
use starsyncbackend.Effect.Keeps.{bind_keeps, throw_if_keeps, lookup_keeps, found_keeps}
use starsyncbackend.Invitation.Lookups.{
  find_user_or_none-reads, find_project_or_none-reads, check_keeps, pending_for_keeps,
  notify_change-OneEach, names_keep,
}

module _ (r : Repositories) where
  pub send_invitation-OneEach :
      (inviter project invitee : String) (role : CollaboratorRole) (s : Db r)
      → OneEach r s
      → OneEach r (send_invitation r inviter project invitee role s).1
  unfolding send_invitation
  send_invitation-OneEach inviter project invitee role s o =
      check_keeps r inviter project invitee _ s o λ x free.
        let o' = insert_invitation-OneEach r inviter project invitee role s free o in
        bind_keeps (OneEach r) (insert_invitation r (new_invitation r inviter project invitee role))
          _ s o'
          λ row _.
            lookup_keeps (OneEach r) (find_user_or_none r inviter) _ _
              (find_user_or_none-reads r inviter) o'
              λ _. record { invited = o'.invited; joined = o'.joined }

  pub reject_invitation-OneEach :
      (user id : String) (s : Db r) → OneEach r s → OneEach r (reject_invitation r user id s).1
  unfolding reject_invitation
  reject_invitation-OneEach user id s o = pending_for_keeps r user id _ s o λ i there.
      let o' =
        update_invitation-OneEach r i
          (λ i. i.id == id && i.invitee_id == user && is_pending i.status) rejected s there refl
          o in
      bind_keeps (OneEach r) (update_invitation r (record i { status = rejected })) _ s o' λ _ _.
        lookup_keeps (OneEach r) (find_project r i.project_id) _ _ (λ t. refl) o'
          λ _.
            names_keep r i (notify_change r i "rejected") _ o'
              (notify_change-OneEach r i "rejected" _ o')

  pub cancel_invitation-OneEach :
      (user id : String) (s : Db r) → OneEach r s → OneEach r (cancel_invitation r user id s).1
  unfolding cancel_invitation
  cancel_invitation-OneEach user id s o =
      lookup_keeps (OneEach r)
        (find_invitation r (λ i. i.id == id && i.inviter_id == user && is_pending i.status)) _ s
        (λ t. refl) o
        λ row. found_keeps (OneEach r) row (not_found "Invitation not found") _ s o λ i _.
          lookup_keeps (OneEach r) (find_project r i.project_id) _ s (λ t. refl) o
            λ _. names_keep r i (delete_invitation r id >> notify_change r i "cancelled") s o (
              bind_keeps (OneEach r) (delete_invitation r id) _ s
                (delete_invitation-OneEach r id s o)
                λ _ _. notify_change-OneEach r i "cancelled" _ (delete_invitation-OneEach r id s o))

  pub accept_invitation-OneEach :
      (user id : String) (s : Db r) → OneEach r s → OneEach r (accept_invitation r user id s).1
  unfolding accept_invitation
  accept_invitation-OneEach user id s o = pending_for_keeps r user id _ s o λ i there.
      bind_keeps (OneEach r) (find_collaborator r i.project_id i.invitee_id) _ s o λ c looked.
        throw_if_keeps (OneEach r) (is_some c) (bad_request "Already a collaborator") _ s o λ fresh.
          let o1 = insert_collaborator-OneEach r i s (ground (arith, looked, fresh)) o in
          bind_keeps (OneEach r) (insert_collaborator r (new_collaborator r i)) _ s o1 λ row _.
            let o2 =
              update_invitation-OneEach r i
                (λ i. i.id == id && i.invitee_id == user && is_pending i.status) accepted
                (insert_collaborator r (new_collaborator r i) s).1
                (rw (insert_collaborator-rest r i s) there) refl o1 in
            bind_keeps (OneEach r) (update_invitation r (record i { status = accepted })) _ _ o2
              λ _ _.
                lookup_keeps (OneEach r) (find_project_or_none r i.project_id) _ _
                  (find_project_or_none-reads r i.project_id) o2
                  λ _. names_keep r i (notify_change r i "accepted" >> pure row) _ o2 (
                    bind_keeps (OneEach r) (notify_change r i "accepted") (λ _. pure row) _
                      (notify_change-OneEach r i "accepted" _ o2)
                      λ _ _. notify_change-OneEach r i "accepted" _ o2)

-- A call of the service, by a user.
pub data Call : Type 0 where
  send : String → String → String → CollaboratorRole → Call
  accept reject cancel : String → String → Call

pub step : (r : Repositories) → Call → Db r → Db r
step r (send inviter project invitee role) s = (send_invitation r inviter project invitee role s).1
step r (accept user id) s = (accept_invitation r user id s).1
step r (reject user id) s = (reject_invitation r user id s).1
step r (cancel user id) s = (cancel_invitation r user id s).1

pub run : (r : Repositories) → List Call → Db r → Db r
run r [] s = s
run r (c ∷ cs) s = run r cs (step r c s)

step-OneEach : (r : Repositories) (c : Call) (s : Db r) → OneEach r s → OneEach r (step r c s)
unfolding step
step-OneEach r (send inviter project invitee role) s o =
    send_invitation-OneEach r inviter project invitee role s o
step-OneEach r (accept user id) s o = accept_invitation-OneEach r user id s o
step-OneEach r (reject user id) s o = reject_invitation-OneEach r user id s o
step-OneEach r (cancel user id) s o = cancel_invitation-OneEach r user id s o

-- From a database in which at most one invitation of each user to each project waits and each user
-- is a collaborator of each project at most once, every history of calls that send, accept, reject
-- or cancel an invitation, each run to its end, leads to such a database, also where a check
-- refuses a call or a call of the database fails half-way.
pub run-OneEach :
    (r : Repositories) (cs : List Call) (s : Db r) → OneEach r s → OneEach r (run r cs s)
unfolding run
run-OneEach r [] s o = o
run-OneEach r (c ∷ cs) s o = run-OneEach r cs (step r c s) (step-OneEach r c s o)

-- ===== src/LockQueue/Ordering.antt =====
-- The order of the queues of src/socket/lock-queue.service.ts, over histories of its methods.
use starsyncbackend.Prelude.{
  ℕ, String, ◌≡◌, refl, List, [], ◌∷◌, Option, none, some, eq_iff, ◌==◌, Option-cases, Bool-cases,
  inl, inr,
}
use starsyncbackend.Prelude.Int.{ℤ}
use starsyncbackend.Json.{Json}
use starsyncbackend.JsMap
use starsyncbackend.JsMap.{get-set, get-delete}
use starsyncbackend.LockQueue.{
  LockQueue, Request, init, lock_key, request_key, release_lock, process_queued, queue_edit,
  is_locked, held_items, expired_items, acquire_lock, acquire_install, renew, release_each,
  release_all_user_locks, cleanup_expired_locks,
}
use starsyncbackend.LockQueue.Release.{waiting, release_lock_lem, is_locked_lem}
use starsyncbackend.LockQueue.Acquire.{
  Outcome, fresh, taken_over, refused, renewed, acquire_lock_lem,
}
use starsyncbackend.LockQueue.History.{
  Call, acquire, release, release_all, query, process, enqueue, cleanup, step, run,
}
use starsyncbackend.LockQueue.Waiting.{IsOrdered, process_queued-cases, queue_edit_lem}

-- Every item's queue has the higher priorities in front.
pub record QueuesOrdered (s : LockQueue) : Type 0 where
  pub at_key : (k : String) → IsOrdered (waiting k s)

same_queues : (s t : LockQueue) → t.edit_queues ≡ s.edit_queues → QueuesOrdered s → QueuesOrdered t
unfolding waiting
same_queues s t e o = record { at_key = λ k. rw e (o.at_key k) }

release_lock-QueuesOrdered :
    (now : ℕ) (item project : String) (user : Option String) {s : LockQueue}
    → QueuesOrdered s
    → QueuesOrdered (release_lock now item project user s).0
release_lock-QueuesOrdered now item project user {s} o =
    elim (release_lock_lem now item project user s) [
      | inl h ↦ rw h.1 o
      | inr (lock, _, _, _, _, _, _, w) ↦ record {
        at_key = λ k. rw (w k) (elim (Bool-cases (lock_key item project == k)) [
          | inl e ↦ rw e tt
          | inr e ↦ rw e (o.at_key k)
        ]);
      }
    ]

release_each-QueuesOrdered :
    (now : ℕ) (user : Option String) (items : List (String × String)) {s : LockQueue}
    → QueuesOrdered s
    → QueuesOrdered (release_each now user items s)
unfolding release_each
release_each-QueuesOrdered now user [] o = o
release_each-QueuesOrdered now user ((item, project) ∷ rest) o =
    release_each-QueuesOrdered now user rest (release_lock-QueuesOrdered now item project user o)

is_locked-QueuesOrdered :
    (now : ℕ) (item project : String) {s : LockQueue}
    → QueuesOrdered s
    → QueuesOrdered (is_locked now item project s).0
is_locked-QueuesOrdered now item project {s} o = elim (is_locked_lem now item project s) [
  | inl e ↦ rw e o
  | inr (_, _, _, _, _, q) ↦ same_queues s _ q o
]

delete_queue-QueuesOrdered :
    (key : String) {s : LockQueue}
    → QueuesOrdered s
    → QueuesOrdered (record s { edit_queues = JsMap.delete key s.edit_queues })
unfolding waiting
delete_queue-QueuesOrdered key {s} o = record {
  at_key = λ k.
      rw (get-delete key k s.edit_queues)
        (elim (Bool-cases (key == k)) [ inl e ↦ rw e tt | inr e ↦ rw e (o.at_key k) ]);
}

process_queued-QueuesOrdered :
    (now : ℕ) (item project : String) {s : LockQueue}
    → QueuesOrdered s
    → QueuesOrdered (process_queued now item project s).0
process_queued-QueuesOrdered now item project {s} o =
    let o' = is_locked-QueuesOrdered now item project o in
    elim (process_queued-cases now item project s) [
      | inl e ↦ rw e o
      | inr (inl e) ↦ rw e o'
      | inr (inr e) ↦ rw e (delete_queue-QueuesOrdered (lock_key item project) o')
    ]

acquire_lock-QueuesOrdered :
    (now later : ℕ) (r : Request) {s : LockQueue}
    → QueuesOrdered s
    → Outcome now later r s
    → QueuesOrdered (acquire_lock now later r s).0
unfolding acquire_install renew
acquire_lock-QueuesOrdered now later r {s} o (fresh e p) = rw p (same_queues s _ refl o)
acquire_lock-QueuesOrdered now later r {s} o (taken_over lock e h p) =
    rw p (same_queues _ _ refl (release_lock-QueuesOrdered later r.item_id r.project_id none o))
acquire_lock-QueuesOrdered now later r {s} o (refused lock e h d p) = rw p o
acquire_lock-QueuesOrdered now later r {s} o (renewed lock e h d p) = rw p (same_queues s _ refl o)

queue_edit-QueuesOrdered :
    (now : ℕ) (r : Request) (edit_data : Json) (priority : ℤ) {s : LockQueue}
    → QueuesOrdered s
    → QueuesOrdered (queue_edit now r edit_data priority s).0
queue_edit-QueuesOrdered now r edit_data priority {s} o =
    let spec = queue_edit_lem now r edit_data priority s (o.at_key (request_key r)) in
    record {
      at_key = λ k. elim (Bool-cases (k == request_key r)) [
        | inl e ↦ rw ((eq_iff k (request_key r)).0 e) spec.3
        | inr e ↦ rw (spec.4 k (λ same. cc (e, (eq_iff k (request_key r)).1 same))) (o.at_key k)
      ];
    }

step-QueuesOrdered : (c : Call) {s : LockQueue} → QueuesOrdered s → QueuesOrdered (step c s)
unfolding step release_all_user_locks cleanup_expired_locks
step-QueuesOrdered (acquire now later r) {s} o =
    acquire_lock-QueuesOrdered now later r o (acquire_lock_lem now later r s)
step-QueuesOrdered (release now item project user) o =
    release_lock-QueuesOrdered now item project user o
step-QueuesOrdered (release_all now user) {s} o =
    elim (Option-cases (JsMap.get user s.user_locks)) [
      | inl e ↦ rw (e, release_all_user_locks) o
      | inr (keys, e) ↦
          rw (e, release_all_user_locks)
            (release_each-QueuesOrdered now (some user) (held_items keys s.locks) o)
    ]
step-QueuesOrdered (query now item project) o = is_locked-QueuesOrdered now item project o
step-QueuesOrdered (process now item project) o = process_queued-QueuesOrdered now item project o
step-QueuesOrdered (enqueue now r edit_data priority) o =
    queue_edit-QueuesOrdered now r edit_data priority o
step-QueuesOrdered (cleanup now) {s} o =
    release_each-QueuesOrdered now none (expired_items now s.locks) o

run_keeps_order : (cs : List Call) {s : LockQueue} → QueuesOrdered s → QueuesOrdered (run cs s)
unfolding run
run_keeps_order [] o = o
run_keeps_order (c ∷ cs) o = run_keeps_order cs (step-QueuesOrdered c o)

-- After any history of calls of the lock service, each run to its end, the edits that wait for an
-- item stand in order of their priority, the highest in front.
pub run-QueuesOrdered : (cs : List Call) → QueuesOrdered (run cs init)
run-QueuesOrdered cs = run_keeps_order cs (record { at_key = λ k. unfold waiting JsMap.get in tt })

-- ===== src/LockQueue/Waiting.antt =====
-- The queues of waiting edits of src/socket/lock-queue.service.ts, and what a release does to them.
use starsyncbackend.Prelude.{
  ℕ, zero, suc, String, true, false, ◌≡◌, ◌≢◌, refl, List, [], ◌∷◌, ◌++◌, Option, some, arith, ◌⊎◌,
  eq_iff, eq_refl, Bool-cases, inl, inr, All, take, drop,
}
use starsyncbackend.Prelude.Int.{ℤ, ltb_ℤ}
use starsyncbackend.Json.{Json}
use starsyncbackend.JsMap
use starsyncbackend.JsMap.{get-set, get-delete}
use starsyncbackend.LockQueue.{
  LockQueue, QueuedEdit, Request, lock_key, request_key, release_lock, process_queued, queue_edit,
  insert_index, splice, is_locked, new_edit,
}
use starsyncbackend.LockQueue.Release.{waiting, release_lock_lem}

process_nothing :
    (now : ℕ) (item project : String) (s : LockQueue)
    → waiting (lock_key item project) s ≡ []
    → process_queued now item project s ≡ (s, [])
unfolding process_queued waiting
process_nothing now item project s e = ground arith

-- After a release that succeeds nobody's edit waits for the item any more, and a later
-- processQueuedEdits for it returns no edit, whatever had been queued.
pub release_drops_queue :
    (now later : ℕ) (item project : String) (user : Option String) (s : LockQueue)
    → (release_lock now item project user s).1 ≡ true
    → (waiting (lock_key item project) (release_lock now item project user s).0 ≡ [])
      × (process_queued later item project (release_lock now item project user s).0
          ≡ ((release_lock now item project user s).0, []))
release_drops_queue now later item project user s ok =
    elim (release_lock_lem now item project user s) [
      | inl h ↦ absurd (ground (arith, h.1))
      | inr (lock, _, _, _, _, _, _, w) ↦
          let key = lock_key item project in
          let gone : waiting key (release_lock now item project user s).0 ≡ [] =
            ground (arith, w key, eq_refl key) in
          (gone, process_nothing later item project (release_lock now item project user s).0 gone)
    ]

pub process_queued-cases :
    (now : ℕ) (item project : String) (s : LockQueue)
    → let s' = (is_locked now item project s).0 in
      ((process_queued now item project s).0 ≡ s)
      ⊎ ((process_queued now item project s).0 ≡ s')
      ⊎ ((process_queued now item project s).0
          ≡ record s' { edit_queues = JsMap.delete (lock_key item project) s'.edit_queues })
unfolding process_queued
process_queued-cases now item project s = ground arith

-- A higher priority stands before a lower one.
abbrev pub IsOrdered : List QueuedEdit → Type 0
IsOrdered [] = Unit
IsOrdered (x ∷ xs) = All (λ y. ltb_ℤ x.priority y.priority ≡ false) xs × IsOrdered xs

insert_index-here :
    (priority : ℤ) (x : QueuedEdit) (xs : List QueuedEdit)
    → ltb_ℤ x.priority priority ≡ true
    → insert_index priority (x ∷ xs) ≡ 0
unfolding insert_index
insert_index-here priority x xs h = ground arith

insert_index-next :
    (priority : ℤ) (x : QueuedEdit) (xs : List QueuedEdit)
    → ltb_ℤ x.priority priority ≡ false
    → insert_index priority (x ∷ xs) ≡ suc (insert_index priority xs)
unfolding insert_index
insert_index-next priority x xs h = ground arith

-- Behind an edit of a lower priority all have a lower one.
All-lower :
    (priority : ℤ) (x : QueuedEdit) (xs : List QueuedEdit)
    → ltb_ℤ x.priority priority ≡ true
    → All (λ y. ltb_ℤ x.priority y.priority ≡ false) xs
    → All (λ y. ltb_ℤ y.priority priority ≡ true) xs
All-lower priority x [] h a = tt
All-lower priority x (y ∷ ys) h a = (ground arith, All-lower priority x ys h a.1)

-- The loop of `queueEdit` cuts an ordered queue behind the edits of at least the priority.
insert_index_lem :
    (priority : ℤ) (queue : List QueuedEdit)
    → IsOrdered queue
    → All (λ e. ltb_ℤ e.priority priority ≡ false) (take (insert_index priority queue) queue)
      × All (λ e. ltb_ℤ e.priority priority ≡ true) (drop (insert_index priority queue) queue)
insert_index_lem priority [] o = unfold insert_index in (tt, tt)
insert_index_lem priority (x ∷ xs) o = elim (Bool-cases (ltb_ℤ x.priority priority)) [
  | inl h ↦ rw (insert_index-here priority x xs h) (tt, (h, All-lower priority x xs h o.0))
  | inr h ↦
      let rest = insert_index_lem priority xs o.1 in
      rw (insert_index-next priority x xs h) ((h, rest.0), rest.1)
]

All-splice {κ} :
    (P : QueuedEdit → Type κ) (i : ℕ) (edit : QueuedEdit) (xs : List QueuedEdit)
    → P edit
    → All P xs
    → All P (splice i edit xs)
unfolding splice
All-splice P zero edit xs p a = (p, a)
All-splice P (suc i) edit [] p a = (p, a)
All-splice P (suc i) edit (x ∷ xs) p a = (a.0, All-splice P i edit xs p a.1)

All-not_higher :
    (edit x : QueuedEdit) (xs : List QueuedEdit)
    → ltb_ℤ x.priority edit.priority ≡ true
    → All (λ y. ltb_ℤ x.priority y.priority ≡ false) xs
    → All (λ y. ltb_ℤ edit.priority y.priority ≡ false) xs
All-not_higher edit x [] h a = tt
All-not_higher edit x (y ∷ ys) h a = (ground arith, All-not_higher edit x ys h a.1)

splice-next :
    (i : ℕ) (edit x : QueuedEdit) (xs : List QueuedEdit)
    → splice (suc i) edit (x ∷ xs) ≡ x ∷ splice i edit xs
unfolding splice
splice-next i edit x xs = refl

splice-IsOrdered :
    (edit : QueuedEdit) (queue : List QueuedEdit)
    → IsOrdered queue
    → IsOrdered (splice (insert_index edit.priority queue) edit queue)
splice-IsOrdered edit [] o = unfold insert_index splice in (tt, tt)
splice-IsOrdered edit (x ∷ xs) o = elim (Bool-cases (ltb_ℤ x.priority edit.priority)) [
  | inl h ↦
      rw (insert_index-here edit.priority x xs h)
        (unfold splice in ((ground arith, All-not_higher edit x xs h o.0), o))
  | inr h ↦
      rw (insert_index-next edit.priority x xs h)
        (rw splice-next (All-splice _ _ edit xs h o.0, splice-IsOrdered edit xs o.1))
]

splice-eq :
    (i : ℕ) (edit : QueuedEdit) (queue : List QueuedEdit)
    → splice i edit queue ≡ take i queue ++ edit ∷ drop i queue
unfolding splice
splice-eq zero edit queue = refl
splice-eq (suc i) edit [] = refl
splice-eq (suc i) edit (x ∷ queue) = rw (splice-eq i edit queue)

-- Queueing an edit on a queue that is ordered by priority: the answer is the index at which the
-- edit now stands; in front of it stand, in their order, exactly the waiting edits of at least its
-- priority, behind it those of a lower one; the queue is ordered again, and no other item's queue
-- changes.
pub queue_edit_lem :
    (now : ℕ) (r : Request) (edit_data : Json) (priority : ℤ) (s : LockQueue)
    → IsOrdered (waiting (request_key r) s)
    → let old = waiting (request_key r) s in
      let index = (queue_edit now r edit_data priority s).1 in
      let edit = new_edit now r edit_data priority in
      (waiting (request_key r) (queue_edit now r edit_data priority s).0
        ≡ take index old ++ edit ∷ drop index old)
      × All (λ e. ltb_ℤ e.priority priority ≡ false) (take index old)
      × All (λ e. ltb_ℤ e.priority priority ≡ true) (drop index old)
      × IsOrdered (waiting (request_key r) (queue_edit now r edit_data priority s).0)
      × ((k : String)
          → k ≢ request_key r
          → waiting k (queue_edit now r edit_data priority s).0 ≡ waiting k s)
unfolding queue_edit waiting
queue_edit_lem now r edit_data priority s o =
    let key = request_key r in
    let old = waiting key s in
    let index = insert_index priority old in
    let edit = new_edit now r edit_data priority in
    let cut = insert_index_lem priority old o in
    let placed : JsMap.get key (JsMap.set key (splice index edit old) s.edit_queues)
        ≡ some (splice index edit old) =
      ground (arith, get-set key key (splice index edit old) s.edit_queues, eq_refl key) in
    (
      rw placed (splice-eq index edit old),
      cut.0,
      cut.1,
      rw placed (splice-IsOrdered edit old o),
      λ k ne. ground (arith, get-set key k (splice index edit old) s.edit_queues, eq_iff key k),
    )

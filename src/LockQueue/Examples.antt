-- ===== src/LockQueue/Examples.antt =====
-- Runs of src/socket/lock-queue.service.ts: two users and a clip.
use starsyncbackend.Prelude.{
  ℕ, String, true, false, List, [], ◌∷◌, ◌++◌, none, some, ◌≡◌, ◌≢◌, ◌≤◌, refl, arith,
  if◌then◌else◌, All, take, drop, differs,
}
use starsyncbackend.Prelude.Int.{pos, ltb_ℤ}
use starsyncbackend.Json.{undefined}
use starsyncbackend.JsMap
use starsyncbackend.LockQueue.{
  LockQueue, Request, init, acquire_lock, granted, denied, request_key, new_lock,
  release_all_user_locks, cleanup_expired_locks, process_queued, queue_edit, new_edit, lock_key,
  acquire_check, acquire_install, release_start, expired,
}
use starsyncbackend.LockQueue.Release.{waiting}
use starsyncbackend.LockQueue.Invariant.{IsConsistent, owned_by, init-IsConsistent}
use starsyncbackend.LockQueue.History.{
  Call, acquire, enqueue, query, release, step, run, run-IsConsistent,
}
use starsyncbackend.LockQueue.Sweep.{
  is_expired, get-release_all_user_locks, get-cleanup_expired_locks,
}
use starsyncbackend.LockQueue.Lease.{Held, exclusion}
use starsyncbackend.LockQueue.Waiting.{IsOrdered, queue_edit_lem}
use starsyncbackend.LockQueue.Ordering.{QueuesOrdered, run-QueuesOrdered}
use starsyncbackend.LockQueue.Race.{acquire_race}

abbrev of_user : String → Request
of_user user = record {
  item_id = "clip";
  item_type = "note";
  user_id = user;
  username = user;
  project_id = "song";
}

abbrev alice_acquires : Call
alice_acquires = acquire 0 0 (of_user "alice")

abbrev bob_tries : List Call
bob_tries =
    enqueue 10 (of_user "bob") undefined (pos 1)
    ∷ query 20 "clip" "song"
    ∷ release 30 "clip" "song" (some "bob")
    ∷ []

abbrev locked : LockQueue
locked = run (alice_acquires ∷ []) init

abbrev queued : LockQueue
queued = run (alice_acquires ∷ bob_tries) init

run-IsConsistent_example : IsConsistent queued
run-IsConsistent_example = run-IsConsistent (alice_acquires ∷ bob_tries)

run-QueuesOrdered_example : QueuesOrdered queued
run-QueuesOrdered_example = run-QueuesOrdered (alice_acquires ∷ bob_tries)

bob-ne-alice : ◌≢◌ {A = String} "bob" "alice"
bob-ne-alice = differs "bob" "alice" refl

alice_granted : (acquire_lock 0 0 (of_user "alice") init).1 ≡ granted 300000
unfolding acquire_lock acquire_check acquire_install JsMap.get
alice_granted = refl

exclusion_example :
    (name : String) × (expires : ℕ) × (acquire_lock 1000 1000
        (of_user "bob")
        (run bob_tries (acquire_lock 0 0 (of_user "alice") init).0)
      ≡ (run bob_tries (acquire_lock 0 0 (of_user "alice") init).0, denied name expires))
    × (300000 ≤ expires)
exclusion_example =
    exclusion 0 0 (of_user "alice") init 300000 bob_tries 1000 1000 (of_user "bob")
      init-IsConsistent alice_granted
      (tt, (ground arith, ((bob-ne-alice, differs "bob" "" refl), tt))) (ground arith) refl
      bob-ne-alice

get-release_all_user_locks_example :
    JsMap.get "song:clip" (release_all_user_locks 40 "alice" queued).locks ≡ (
      if owned_by "alice" (JsMap.get "song:clip" queued.locks)
      then none
      else JsMap.get "song:clip" queued.locks)
get-release_all_user_locks_example =
    get-release_all_user_locks 40 "alice" queued "song:clip"
      (run-IsConsistent (alice_acquires ∷ bob_tries))

get-cleanup_expired_locks_example :
    JsMap.get "song:clip" (cleanup_expired_locks 300001 queued).locks ≡ (
      if is_expired 300001 (JsMap.get "song:clip" queued.locks)
      then none
      else JsMap.get "song:clip" queued.locks)
get-cleanup_expired_locks_example =
    get-cleanup_expired_locks 300001 queued "song:clip"
      (run-IsConsistent (alice_acquires ∷ bob_tries))

queue_edit_lem_example :
    let r = of_user "alice" in
    let old = waiting (request_key r) queued in
    let index = (queue_edit 50 r undefined (pos 7) queued).1 in
    let edit = new_edit 50 r undefined (pos 7) in
    (waiting (request_key r) (queue_edit 50 r undefined (pos 7) queued).0
      ≡ take index old ++ edit ∷ drop index old)
    × All (λ e. ltb_ℤ e.priority (pos 7) ≡ false) (take index old)
    × All (λ e. ltb_ℤ e.priority (pos 7) ≡ true) (drop index old)
    × IsOrdered (waiting (request_key r) (queue_edit 50 r undefined (pos 7) queued).0)
    × ((k : String)
        → k ≢ request_key r
        → waiting k (queue_edit 50 r undefined (pos 7) queued).0 ≡ waiting k queued)
queue_edit_lem_example =
    queue_edit_lem 50 (of_user "alice") undefined (pos 7) queued
      ((run-QueuesOrdered (alice_acquires ∷ bob_tries)).at_key (request_key (of_user "alice")))

alice_expired : acquire_check 300001 (of_user "alice") locked ≡ expired
unfolding run step acquire_lock acquire_check acquire_install JsMap.get JsMap.set lock_key
alice_expired = refl

alice-ne-bob : ◌≢◌ {A = String} "alice" "bob"
alice-ne-bob = differs "alice" "bob" refl

acquire_race_example :
    let s1 = (release_start "clip" "song" none locked).0 in
    let s2 = (acquire_lock 300002 300002 (of_user "bob") s1).0 in
    let s3 = (process_queued 300003 "clip" "song" s2).0 in
    ((acquire_lock 300002 300002 (of_user "bob") s1).1 ≡ granted 600002)
    × Held "bob" (lock_key "clip" "song") 600002 s3
    × ((acquire_install 300003 (of_user "alice") s3).1 ≡ granted 600003)
    × (JsMap.get (lock_key "clip" "song") (acquire_install 300003 (of_user "alice") s3).0.locks
        ≡ some (new_lock 300003 (of_user "alice")))
acquire_race_example =
    acquire_race 300001 300002 300003 300003 (of_user "alice") (of_user "bob") locked alice_expired
      refl alice-ne-bob (ground arith)

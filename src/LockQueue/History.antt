-- ===== src/LockQueue/History.antt =====
-- Histories of src/socket/lock-queue.service.ts: its methods one after the other, each run to its end.
use starsyncbackend.Prelude.{ℕ, String, List, [], ◌∷◌, Option}
use starsyncbackend.Prelude.Int.{ℤ}
use starsyncbackend.Json.{Json}
use starsyncbackend.LockQueue.{
  LockQueue, Request, init, acquire_lock, release_lock, release_all_user_locks, is_locked,
  process_queued, queue_edit, cleanup_expired_locks,
}
use starsyncbackend.LockQueue.Invariant.{
  IsConsistent, init-IsConsistent, acquire_lock-IsConsistent, release_lock-IsConsistent,
  release_all-IsConsistent, is_locked-IsConsistent, process_queued-IsConsistent,
  queue_edit-IsConsistent, cleanup-IsConsistent,
}

pub data Call : Type 0 where
  acquire : ℕ → ℕ → Request → Call
  release : ℕ → String → String → Option String → Call
  release_all : ℕ → String → Call
  query : ℕ → String → String → Call
  process : ℕ → String → String → Call
  enqueue : ℕ → Request → Json → ℤ → Call
  cleanup : ℕ → Call

unfoldable pub step : Call → LockQueue → LockQueue
step (acquire now later r) s = (acquire_lock now later r s).0
step (release now item project user) s = (release_lock now item project user s).0
step (release_all now user) s = release_all_user_locks now user s
step (query now item project) s = (is_locked now item project s).0
step (process now item project) s = (process_queued now item project s).0
step (enqueue now r edit_data priority) s = (queue_edit now r edit_data priority s).0
step (cleanup now) s = cleanup_expired_locks now s

unfoldable pub run : List Call → LockQueue → LockQueue
run [] s = s
run (c ∷ cs) s = run cs (step c s)

pub step-IsConsistent : (c : Call) {s : LockQueue} → IsConsistent s → IsConsistent (step c s)
unfolding step
step-IsConsistent (acquire now later r) h = acquire_lock-IsConsistent now later r h
step-IsConsistent (release now item project user) h =
    release_lock-IsConsistent now item project user h
step-IsConsistent (release_all now user) h = release_all-IsConsistent now user h
step-IsConsistent (query now item project) h = is_locked-IsConsistent now item project h
step-IsConsistent (process now item project) h = process_queued-IsConsistent now item project h
step-IsConsistent (enqueue now r edit_data priority) h =
    queue_edit-IsConsistent now r edit_data priority h
step-IsConsistent (cleanup now) h = cleanup-IsConsistent now h

pub run_keeps : (cs : List Call) {s : LockQueue} → IsConsistent s → IsConsistent (run cs s)
unfolding run
run_keeps [] h = h
run_keeps (c ∷ cs) h = run_keeps cs (step-IsConsistent c h)

-- After any history of calls of the lock service, each run to its end, every lock stands under the
-- key of its item, no key stands twice, each user's set has exactly the keys of that user's locks,
-- and no user has an empty set.
pub run-IsConsistent : (cs : List Call) → IsConsistent (run cs init)
run-IsConsistent cs = run_keeps cs init-IsConsistent

-- ===== src/LockQueue.antt =====
-- src/socket/lock-queue.service.ts: locks on the items of a project, and the edits that wait for one.
-- The clock is an argument. A method that awaits Redis is cut at the await: what stands before it
-- (`release_start`, `acquire_check`) and after it (`process_queued`, `acquire_install`) are
-- definitions of their own, and the whole method composes them.
pub mod Release
pub mod Acquire
pub mod Invariant
pub mod Sweep
pub mod History
pub mod Lease
pub mod Waiting
pub mod Ordering
pub mod Race
mod Examples
use Prim.Native.String.{◌++◌ as concat}
use starsyncbackend.Prelude.{
  ℕ, ◌+◌, ◌*◌, suc, String, Bool, true, false, not, ◌&&◌, List, [], ◌∷◌, ◌++◌, Option, none, some,
  ltb, leb, if◌then◌else◌, or_else, truthy, is_some, get_or, ◌==◌,
}
use starsyncbackend.Prelude.Int.{ℤ, ltb_ℤ}
use starsyncbackend.Json.{Json}
use starsyncbackend.JsMap
use starsyncbackend.SetMap

pub record ItemLock : Type 0 where
  pub item_id : String
  pub item_type : String
  pub user_id : String
  pub username : String
  pub locked_at : ℕ
  pub expires_at : ℕ
  pub project_id : String

-- An edit that waits for a lock to be released.
pub record QueuedEdit : Type 0 where
  pub item_id : String
  pub item_type : String
  pub user_id : String
  pub username : String
  pub edit_data : Json
  pub queued_at : ℕ
  pub project_id : String
  pub priority : ℤ

-- A call of `RedisService`; the value that is set is the lock, before `JSON.stringify`.
pub data RedisCall : Type 0 where
  set_item : String → ItemLock → RedisCall
  delete_item : String → RedisCall

-- The three maps of the service, the Redis calls made so far, newest first, and the releases that
-- `isLocked` has started without awaiting them.
pub record LockQueue : Type 0 where
  pub locks : List (String × ItemLock)
  pub edit_queues : List (String × List QueuedEdit)
  pub user_locks : List (String × List String)
  pub redis_calls : List RedisCall
  pub unawaited : List (String × String)

abbrev pub init : LockQueue
init = record { locks = []; edit_queues = []; user_locks = []; redis_calls = []; unawaited = [] }

abbrev pub lock_expiration_ms : ℕ
lock_expiration_ms = 5 * 60 * 1000

pub lock_key : String → String → String
lock_key item_id project_id = concat project_id (concat ":" item_id)

abbrev redis_key : String → String
redis_key key = concat "lock:" key

-- A release named for a user is refused for another's lock; the empty name is no name.
abbrev refuses : Option String → ItemLock → Bool
refuses none lock = false
refuses (some user) lock = not (user == "") && not (lock.user_id == user)

-- `releaseLockImpl` up to its first await.
pub release_start : String → String → Option String → LockQueue → LockQueue × Bool
release_start item_id project_id user_id s =
    let key = lock_key item_id project_id in
    elim (JsMap.get key s.locks) [
      | none ↦ (s, false)
      | some lock ↦ if refuses user_id lock then (s, false) else (
        record s {
          locks = JsMap.delete key s.locks;
          user_locks = SetMap.remove_member lock.user_id key s.user_locks;
          redis_calls = delete_item (redis_key key) ∷ s.redis_calls;
        },
        true,
      )
    ]

-- `isLocked`: an expired lock is released on the way, and that release is not awaited.
pub is_locked : ℕ → String → String → LockQueue → LockQueue × Option ItemLock
is_locked now item_id project_id s = elim (JsMap.get (lock_key item_id project_id) s.locks) [
  | none ↦ (s, none)
  | some lock ↦
      if ltb lock.expires_at now
      then (
        let s' = (release_start item_id project_id none s).0 in
            record s' { unawaited = (item_id, project_id) ∷ s'.unawaited },
        none,
      )
      else (s, some lock)
]

-- `processQueuedEditsImpl`
pub process_queued : ℕ → String → String → LockQueue → LockQueue × List QueuedEdit
process_queued now item_id project_id s =
    let key = lock_key item_id project_id in
    elim (get_or (JsMap.get key s.edit_queues) []) [
      | [] ↦ (s, [])
      | edit ∷ edits ↦
          let (s', lock) = is_locked now item_id project_id s in
          if is_some lock
          then (s', [])
          else (record s' { edit_queues = JsMap.delete key s'.edit_queues }, edit ∷ edits)
    ]

-- `releaseLockImpl`; `now` is the time after the await. The queued edits are dropped.
pub release_lock : ℕ → String → String → Option String → LockQueue → LockQueue × Bool
release_lock now item_id project_id user_id s =
    let (s', released) = release_start item_id project_id user_id s in
    if released then ((process_queued now item_id project_id s').0, true) else (s, false)

pub data AcquireResult : Type 0 where
  granted : ℕ → AcquireResult
  denied : String → ℕ → AcquireResult

pub record Request : Type 0 where
  pub item_id : String
  pub item_type : String
  pub user_id : String
  pub username : String
  pub project_id : String

abbrev pub request_key : Request → String
request_key r = lock_key r.item_id r.project_id

-- What `acquireLockImpl` finds before its first await.
pub data Found : Type 0 where
  absent : Found
  expired : Found
  of_other : ItemLock → Found
  of_self : ItemLock → Found

pub acquire_check : ℕ → Request → LockQueue → Found
acquire_check now r s = elim (JsMap.get (request_key r) s.locks) [
  | none ↦ absent
  | some lock ↦
      if ltb lock.expires_at now
      then expired
      else if lock.user_id == r.user_id
      then of_self lock
      else of_other lock
]

abbrev new_lock : ℕ → Request → ItemLock
new_lock now r = record {
  item_id = r.item_id;
  item_type = r.item_type;
  user_id = r.user_id;
  username = r.username;
  locked_at = now;
  expires_at = now + lock_expiration_ms;
  project_id = r.project_id;
}

-- The end of `acquireLockImpl`: the lock is set, whatever stands there.
pub acquire_install : ℕ → Request → LockQueue → LockQueue × AcquireResult
acquire_install now r s =
    let key = request_key r in
    (
      record s {
        locks = JsMap.set key (new_lock now r) s.locks;
        user_locks = SetMap.add_member r.user_id key s.user_locks;
        redis_calls = set_item (redis_key key) (new_lock now r) ∷ s.redis_calls;
      },
      granted (now + lock_expiration_ms),
    )

-- The holder's request extends the lock in place.
pub renew : ℕ → Request → ItemLock → LockQueue → LockQueue × AcquireResult
renew now r lock s = (
  record s {
    locks =
        JsMap.set (request_key r) (record lock { expires_at = now + lock_expiration_ms }) s.locks;
  },
  granted (now + lock_expiration_ms),
)

-- `acquireLockImpl`, when nothing else runs during its await, which ends at `later`.
pub acquire_lock : ℕ → ℕ → Request → LockQueue → LockQueue × AcquireResult
unfolding acquire_check renew
acquire_lock now later r s = elim (acquire_check now r s) [
  | absent ↦ acquire_install now r s
  | expired ↦ acquire_install later r (release_lock later r.item_id r.project_id none s).0
  | of_other lock ↦ (s, denied (or_else lock.username lock.user_id) lock.expires_at)
  | of_self lock ↦ renew now r lock s
]

-- The loop of `releaseAllUserLocksImpl` that looks the user's keys up.
pub held_items : List String → List (String × ItemLock) → List (String × String)
held_items [] locks = []
held_items (key ∷ keys) locks = elim (JsMap.get key locks) [
  | none ↦ held_items keys locks
  | some lock ↦ (lock.item_id, lock.project_id) ∷ held_items keys locks
]

-- The loops that release what was collected.
pub release_each : ℕ → Option String → List (String × String) → LockQueue → LockQueue
release_each now user_id [] s = s
release_each now user_id ((item_id, project_id) ∷ rest) s =
    release_each now user_id rest (release_lock now item_id project_id user_id s).0

pub release_all_user_locks : ℕ → String → LockQueue → LockQueue
unfolding held_items release_each
release_all_user_locks now user_id s = elim (JsMap.get user_id s.user_locks) [
  | none ↦ s
  | some keys ↦ release_each now (some user_id) (held_items keys s.locks) s
]

pub expired_items : ℕ → List (String × ItemLock) → List (String × String)
expired_items now [] = []
expired_items now ((key, lock) ∷ m) =
    if ltb lock.expires_at now
    then (lock.item_id, lock.project_id) ∷ expired_items now m
    else expired_items now m

pub cleanup_expired_locks : ℕ → LockQueue → LockQueue
unfolding expired_items release_each
cleanup_expired_locks now s = release_each now none (expired_items now s.locks) s

pub get_project_locks : ℕ → String → List (String × ItemLock) → List ItemLock
get_project_locks now project_id [] = []
get_project_locks now project_id ((key, lock) ∷ m) =
    if lock.project_id == project_id && leb now lock.expires_at
    then lock ∷ get_project_locks now project_id m
    else get_project_locks now project_id m

-- The loop of `queueEdit`: the index of the first edit of a lower priority, or the length.
pub insert_index : ℤ → List QueuedEdit → ℕ
insert_index priority [] = 0
insert_index priority (edit ∷ edits) =
    if ltb_ℤ edit.priority priority then 0 else suc (insert_index priority edits)

-- `queue.splice(index, 0, edit)`
pub splice : ℕ → QueuedEdit → List QueuedEdit → List QueuedEdit
splice ℕ.zero edit edits = edit ∷ edits
splice (suc i) edit [] = edit ∷ []
splice (suc i) edit (e ∷ edits) = e ∷ splice i edit edits

pub get_queued_edits : String → String → LockQueue → List QueuedEdit
get_queued_edits item_id project_id s =
    get_or (JsMap.get (lock_key item_id project_id) s.edit_queues) []

abbrev pub new_edit : ℕ → Request → Json → ℤ → QueuedEdit
new_edit now r edit_data priority = record {
  item_id = r.item_id;
  item_type = r.item_type;
  user_id = r.user_id;
  username = r.username;
  edit_data = edit_data;
  queued_at = now;
  project_id = r.project_id;
  priority = priority;
}

pub queue_edit : ℕ → Request → Json → ℤ → LockQueue → LockQueue × ℕ
unfolding insert_index splice get_queued_edits
queue_edit now r edit_data priority s =
    let queue = get_queued_edits r.item_id r.project_id s in
    let index = insert_index priority queue in
    let edit = new_edit now r edit_data priority in
    (
      record s { edit_queues = JsMap.set (request_key r) (splice index edit queue) s.edit_queues },
      index,
    )

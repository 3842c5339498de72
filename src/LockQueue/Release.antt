-- ===== src/LockQueue/Release.antt =====
-- What a release of src/socket/lock-queue.service.ts does to each map: the whole method, with its
-- tail `processQueuedEdits`.
use starsyncbackend.Prelude.{
  ℕ, String, Bool, true, false, not, ◌≡◌, List, [], ◌∷◌, Option, none, some, arith, eq_iff, eq_refl,
  ◌==◌, if◌then◌else◌, get_or, Option-cases, Bool-cases, ltb, ◌<◌, inl, inr, ◌⊎◌,
}
use starsyncbackend.JsMap
use starsyncbackend.JsMap.{get-set, get-delete}
use starsyncbackend.LockQueue.{
  LockQueue, ItemLock, QueuedEdit, lock_key, refuses, release_start, is_locked, process_queued,
  release_lock, redis_key, delete_item,
}
use starsyncbackend.SetMap.{remove_member}

-- The edits that wait under a key.
unfoldable pub waiting : String → LockQueue → List QueuedEdit
waiting key s = get_or (JsMap.get key s.edit_queues) []

-- The tail of a release: the item has no lock.
module _ (now : ℕ) (item project : String) (s : LockQueue)
    (free : JsMap.get (lock_key item project) s.locks ≡ none) where
  pub locks-process_queued : (process_queued now item project s).0.locks ≡ s.locks
  unfolding process_queued is_locked
  locks-process_queued = ground arith

  pub user_locks-process_queued : (process_queued now item project s).0.user_locks ≡ s.user_locks
  unfolding process_queued is_locked
  user_locks-process_queued = ground arith

  pub waiting-process_queued :
      (k : String)
      → waiting k (process_queued now item project s).0
        ≡ (if lock_key item project == k then [] else waiting k s)
  unfolding process_queued is_locked waiting
  waiting-process_queued k =
      ground (
        arith,
        eq_iff (lock_key item project) k,
        get-delete (lock_key item project) k s.edit_queues,
      )

  pub result-process_queued :
      (process_queued now item project s).1 ≡ waiting (lock_key item project) s
  unfolding process_queued is_locked waiting
  result-process_queued = ground arith

-- Whether a release takes a lock out: there is one, and it is not refused.
unfoldable pub releases : String → String → Option String → LockQueue → Bool
releases item project user s = elim (JsMap.get (lock_key item project) s.locks) [
  | none ↦ false
  | some lock ↦ not (refuses user lock)
]

module _ (now : ℕ) (item project : String) (user : Option String) (s : LockQueue) where
  abbrev key : String
  key = lock_key item project

  -- Either nothing happens, or the holder's lock goes and the queue with it.
  -- The state at the await.
  abbrev without : ItemLock → LockQueue
  without lock = record s {
    locks = JsMap.delete key s.locks;
    user_locks = remove_member lock.user_id key s.user_locks;
    redis_calls = delete_item (redis_key key) ∷ s.redis_calls;
  }

  without-free : (lock : ItemLock) → JsMap.get key (without lock).locks ≡ none
  without-free lock = ground (arith, get-delete key key s.locks, eq_refl key)

  release_lock_granted :
      (lock : ItemLock)
      → JsMap.get key s.locks ≡ some lock
      → refuses user lock ≡ false
      → release_lock now item project user s
        ≡ ((process_queued now item project (without lock)).0, true)
  unfolding release_lock release_start
  release_lock_granted lock e r = ground arith

  release_lock-none :
      JsMap.get key s.locks ≡ none → release_lock now item project user s ≡ (s, false)
  unfolding release_lock release_start
  release_lock-none e = ground arith

  release_lock_refused :
      (lock : ItemLock)
      → JsMap.get key s.locks ≡ some lock
      → refuses user lock ≡ true
      → release_lock now item project user s ≡ (s, false)
  unfolding release_lock release_start
  release_lock_refused lock e r = ground arith

  pub release_lock_lem :
      ((releases item project user s ≡ false) × (release_lock now item project user s ≡ (s, false)))
      ⊎ ((lock : ItemLock) × (JsMap.get key s.locks ≡ some lock)
          × (refuses user lock ≡ false)
          × (releases item project user s ≡ true)
          × ((release_lock now item project user s).1 ≡ true)
          × ((release_lock now item project user s).0.locks ≡ JsMap.delete key s.locks)
          × ((release_lock now item project user s).0.user_locks
              ≡ remove_member lock.user_id key s.user_locks)
          × ((k : String)
              → waiting k (release_lock now item project user s).0
                ≡ (if key == k then [] else waiting k s)))
  unfolding releases waiting
  release_lock_lem = elim (Option-cases (JsMap.get key s.locks)) [
    | inl e ↦ inl (rw (e, releases), release_lock-none e)
    | inr (lock, e) ↦ elim (Bool-cases (refuses user lock)) [
      | inl r ↦ inl (rw (e, releases, r), release_lock_refused lock e r)
      | inr r ↦
          let free = without-free lock in
          let s' = without lock in
          let path = release_lock_granted lock e r in
          inr (
            lock,
            e,
            r,
            ground arith,
            rw path,
            rw path (locks-process_queued now item project s' free),
            rw path (user_locks-process_queued now item project s' free),
            λ k. rw path (waiting-process_queued now item project s' free k),
          )
    ]
  ]

-- `isLocked` changes nothing, or it takes an expired lock out and leaves the queues alone.
pub is_locked_lem :
    (now : ℕ) (item project : String) (s : LockQueue)
    → ((is_locked now item project s).0 ≡ s)
      ⊎ ((lock : ItemLock) × (JsMap.get (lock_key item project) s.locks ≡ some lock)
          × (lock.expires_at < now)
          × ((is_locked now item project s).0.locks ≡ JsMap.delete (lock_key item project) s.locks)
          × ((is_locked now item project s).0.user_locks
              ≡ remove_member lock.user_id (lock_key item project) s.user_locks)
          × ((is_locked now item project s).0.edit_queues ≡ s.edit_queues))
unfolding is_locked release_start
is_locked_lem now item project s = elim (Option-cases (JsMap.get (lock_key item project) s.locks)) [
  | inl e ↦ inl (ground arith)
  | inr (lock, e) ↦ elim (Bool-cases (ltb lock.expires_at now)) [
    | inl h ↦ inr (lock, e, ground arith, ground arith, ground arith, ground arith)
    | inr h ↦ inl (ground arith)
  ]
]

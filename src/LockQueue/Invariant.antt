-- ===== src/LockQueue/Invariant.antt =====
-- The agreement of the three maps of src/socket/lock-queue.service.ts, over each of its methods.
use starsyncbackend.Prelude.{
  ℕ, String, Bool, false, ◌≡◌, refl, List, [], ◌∷◌, Option, none, some, arith, eq_iff, ◌==◌,
  is_some, Option-cases, Bool-cases, inl, inr,
}
use starsyncbackend.Prelude.Int.{ℤ}
use starsyncbackend.Json.{Json}
use starsyncbackend.JsMap
use starsyncbackend.JsMap.{get-set, get-delete}
use starsyncbackend.LockQueue.{
  LockQueue, ItemLock, Request, init, lock_key, request_key, is_locked, process_queued,
  release_lock, new_lock, acquire_install, acquire_lock, renew, held_items, expired_items,
  release_each, release_all_user_locks, cleanup_expired_locks, queue_edit,
}
use starsyncbackend.SetMap.{
  remove_member, add_member, contains, NoneEmpty, contains-remove_member, remove_member-NoneEmpty,
  contains-add_member, add_member-NoneEmpty,
}
use starsyncbackend.LockQueue.Release.{release_lock_lem, is_locked_lem}
use starsyncbackend.LockQueue.Acquire.{
  Outcome, fresh, taken_over, refused, renewed, acquire_lock_lem, released_free,
}
use starsyncbackend.JsSet

-- The lock is this user's.
abbrev pub owned_by : String → Option ItemLock → Bool
owned_by user none = false
owned_by user (some lock) = lock.user_id == user

-- A lock stands under the key of its own item, and no key stands twice; a user's set has the keys of
-- the user's locks and no other; and no user has an empty set.
pub record Agree (locks : List (String × ItemLock)) (user_locks : List (String × List String))
    : Type 0 where
  pub keyed :
      (k : String) (l : ItemLock) → JsMap.get k locks ≡ some l → lock_key l.item_id l.project_id ≡ k
  pub tracked : (u k : String) → contains u k user_locks ≡ owned_by u (JsMap.get k locks)
  pub none_empty : NoneEmpty user_locks
  pub distinct : JsMap.Distinct locks

pub record IsConsistent (s : LockQueue) : Type 0 where
  pub agree : Agree s.locks s.user_locks

-- Taking a lock out of both maps.
Agree-delete :
    (key : String) (lock : ItemLock) {locks : List (String × ItemLock)}
    {m : List (String × List String)}
    → JsMap.get key locks ≡ some lock
    → Agree locks m
    → Agree (JsMap.delete key locks) (remove_member lock.user_id key m)
Agree-delete key lock {locks} {m} e h = record {
  keyed = λ k l p. h.keyed k l (ground (arith, get-delete key k locks, eq_iff key k));
  tracked = λ u k. ground (
    arith,
    get-delete key k locks,
    contains-remove_member lock.user_id key u k m,
    h.tracked u k,
    eq_iff key k,
    eq_iff lock.user_id u,
  );
  none_empty = remove_member-NoneEmpty lock.user_id key h.none_empty;
  distinct = JsMap.Distinct-delete key locks h.distinct;
}

-- Putting a lock in where there was none, or one of the same user.
Agree-set :
    (now : ℕ) (r : Request) {locks : List (String × ItemLock)} {m : List (String × List String)}
    → JsMap.get (request_key r) locks ≡ none
    → Agree locks m
    → Agree
        (JsMap.set (request_key r) (new_lock now r) locks)
        (add_member r.user_id (request_key r) m)
Agree-set now r {locks} {m} e h = record {
  keyed = λ k l p.
      let key = request_key r in
      elim (Bool-cases (key == k)) [
        | inl same ↦ ground (arith, get-set key k (new_lock now r) locks, eq_iff key k)
        | inr other ↦
            h.keyed k l (ground (arith, get-set key k (new_lock now r) locks, eq_iff key k))
      ];
  tracked = λ u k.
      let key = request_key r in
      ground (
        arith,
        get-set key k (new_lock now r) locks,
        contains-add_member r.user_id key u k m,
        h.tracked u k,
        eq_iff key k,
        eq_iff r.user_id u,
      );
  none_empty = add_member-NoneEmpty r.user_id (request_key r) h.none_empty;
  distinct = JsMap.Distinct-set _ _ locks h.distinct;
}

Agree-renew :
    (expires : ℕ) (key : String) (lock : ItemLock) {locks : List (String × ItemLock)}
    {m : List (String × List String)}
    → JsMap.get key locks ≡ some lock
    → Agree locks m
    → Agree (JsMap.set key (record lock { expires_at = expires }) locks) m
Agree-renew expires key lock {locks} {m} e h = record {
  keyed = λ k l p. elim (Bool-cases (key == k)) [
    | inl same ↦ ground (
      arith,
      get-set key k (record lock { expires_at = expires }) locks,
      eq_iff key k,
      h.keyed key lock,
    )
    | inr other ↦
        h.keyed k l
          (ground (arith, get-set key k (record lock { expires_at = expires }) locks, eq_iff key k))
  ];
  tracked = λ u k. ground (
    arith,
    get-set key k (record lock { expires_at = expires }) locks,
    h.tracked u k,
    eq_iff key k,
  );
  none_empty = h.none_empty;
  distinct = JsMap.Distinct-set _ _ locks h.distinct;
}

pub init-IsConsistent : IsConsistent init
unfolding contains JsMap.get JsSet.has
init-IsConsistent = record {
  agree = record {
    keyed = λ k l p. cc;
    tracked = λ u k. refl;
    none_empty = record { at_user = λ u keys p. cc };
    distinct = tt;
  };
}

pub release_lock-IsConsistent :
    (now : ℕ) (item project : String) (user : Option String) {s : LockQueue}
    → IsConsistent s
    → IsConsistent (release_lock now item project user s).0
release_lock-IsConsistent now item project user {s} c =
    elim (release_lock_lem now item project user s) [
      | inl h ↦ rw h.1 c
      | inr (lock, e, _, _, _, p, q, _) ↦ record {
        agree = rw (p, q) (Agree-delete _ lock e c.agree);
      }
    ]

acquire_install-IsConsistent :
    (now : ℕ) (r : Request) {s : LockQueue}
    → JsMap.get (request_key r) s.locks ≡ none
    → IsConsistent s
    → IsConsistent (acquire_install now r s).0
unfolding acquire_install
acquire_install-IsConsistent now r e c = record { agree = Agree-set now r e c.agree }

pub acquire_lock-IsConsistent :
    (now later : ℕ) (r : Request) {s : LockQueue}
    → IsConsistent s
    → IsConsistent (acquire_lock now later r s).0
unfolding renew
acquire_lock-IsConsistent now later r {s} c = go (acquire_lock_lem now later r s)
  where
    go : Outcome now later r s → IsConsistent (acquire_lock now later r s).0
    go (fresh e p) = rw p (acquire_install-IsConsistent now r e c)
    go (taken_over lock e h p) = rw p (
        acquire_install-IsConsistent later r (released_free later r s lock e)
          (release_lock-IsConsistent later r.item_id r.project_id none c))
    go (refused lock e h d p) = rw p c
    go (renewed lock e h d p) = rw p (record { agree = Agree-renew _ _ lock e c.agree })

pub is_locked-IsConsistent :
    (now : ℕ) (item project : String) {s : LockQueue}
    → IsConsistent s
    → IsConsistent (is_locked now item project s).0
is_locked-IsConsistent now item project {s} c = elim (is_locked_lem now item project s) [
  | inl e ↦ rw e c
  | inr (lock, e, _, p, q, _) ↦ record { agree = rw (p, q) (Agree-delete _ lock e c.agree) }
]

pub process_queued-IsConsistent :
    (now : ℕ) (item project : String) {s : LockQueue}
    → IsConsistent s
    → IsConsistent (process_queued now item project s).0
unfolding process_queued
process_queued-IsConsistent now item project {s} c =
    elim (Option-cases (JsMap.get (lock_key item project) s.edit_queues)) [
      | inl e ↦ rw (e, process_queued) c
      | inr ([], e) ↦ rw (e, process_queued) c
      | inr (x ∷ xs, e) ↦
          let c' = is_locked-IsConsistent now item project c in
          elim (Bool-cases (is_some (is_locked now item project s).1)) [
            | inl t ↦ rw (e, t, process_queued) c'
            | inr t ↦ rw (e, t, process_queued) (record { agree = c'.agree })
          ]
    ]

release_each-IsConsistent :
    (now : ℕ) (user : Option String) (items : List (String × String)) {s : LockQueue}
    → IsConsistent s
    → IsConsistent (release_each now user items s)
unfolding release_each
release_each-IsConsistent now user [] c = c
release_each-IsConsistent now user ((item, project) ∷ rest) c =
    release_each-IsConsistent now user rest (release_lock-IsConsistent now item project user c)

pub release_all-IsConsistent :
    (now : ℕ) (user : String) {s : LockQueue}
    → IsConsistent s
    → IsConsistent (release_all_user_locks now user s)
unfolding release_all_user_locks
release_all-IsConsistent now user {s} c = elim (Option-cases (JsMap.get user s.user_locks)) [
  | inl e ↦ rw (e, release_all_user_locks) c
  | inr (keys, e) ↦
      rw (e, release_all_user_locks)
        (release_each-IsConsistent now (some user) (held_items keys s.locks) c)
]

pub cleanup-IsConsistent :
    (now : ℕ) {s : LockQueue} → IsConsistent s → IsConsistent (cleanup_expired_locks now s)
unfolding cleanup_expired_locks
cleanup-IsConsistent now {s} c = release_each-IsConsistent now none (expired_items now s.locks) c

pub queue_edit-IsConsistent :
    (now : ℕ) (r : Request) (edit_data : Json) (priority : ℤ) {s : LockQueue}
    → IsConsistent s
    → IsConsistent (queue_edit now r edit_data priority s).0
unfolding queue_edit
queue_edit-IsConsistent now r edit_data priority c = record { agree = c.agree }

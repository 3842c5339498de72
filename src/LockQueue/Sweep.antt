-- ===== src/LockQueue/Sweep.antt =====
-- The two methods of src/socket/lock-queue.service.ts that release many locks at once.
use starsyncbackend.Prelude.{
  ℕ, String, Bool, false, not, ◌&&◌, ◌||◌, ◌≡◌, refl, List, [], ◌∷◌, Option, none, some, arith,
  eq_iff, eq_refl, ◌==◌, if◌then◌else◌, is_some, Option-cases, inl, inr, ltb,
}
use starsyncbackend.JsMap
use starsyncbackend.JsSet
use starsyncbackend.JsMap.{get-set, get-delete}
use starsyncbackend.LockQueue.{
  LockQueue, ItemLock, lock_key, refuses, release_lock, held_items, expired_items, release_each,
  release_all_user_locks, cleanup_expired_locks,
}
use starsyncbackend.SetMap.{contains}
use starsyncbackend.LockQueue.Release.{releases, release_lock_lem}
use starsyncbackend.LockQueue.Invariant.{owned_by, IsConsistent}

-- A release for this user, if any, would take the lock out.
abbrev pub removes : Option String → Option ItemLock → Bool
removes user none = false
removes user (some lock) = not (refuses user lock)

pub get-release_lock :
    (now : ℕ) (item project : String) (user : Option String) (s : LockQueue) (k : String)
    → JsMap.get k (release_lock now item project user s).0.locks ≡ (
        if lock_key item project == k && removes user (JsMap.get k s.locks)
        then none
        else JsMap.get k s.locks)
unfolding releases
get-release_lock now item project user s k = elim (release_lock_lem now item project user s) [
  | inl h ↦ rw h.1 (ground (arith, h.0, eq_iff (lock_key item project) k))
  | inr (lock, e, r, _, _, p, _, _) ↦ rw p (
      ground
        (arith, get-delete (lock_key item project) k s.locks, eq_iff (lock_key item project) k))
]

-- An item of the list has this key.
hits : String → List (String × String) → Bool
hits k [] = false
hits k ((item, project) ∷ rest) = lock_key item project == k || hits k rest

get-release_each :
    (now : ℕ) (user : Option String) (items : List (String × String)) (s : LockQueue) (k : String)
    → JsMap.get k (release_each now user items s).locks
      ≡ (if hits k items && removes user (JsMap.get k s.locks) then none else JsMap.get k s.locks)
unfolding release_each hits
get-release_each now user [] s k = refl
get-release_each now user ((item, project) ∷ rest) s k =
    let s' = (release_lock now item project user s).0 in
    ground (arith, get-release_each now user rest s' k, get-release_lock now item project user s k)

hits-held_items :
    (k : String) (keys : List String) (locks : List (String × ItemLock))
    → ((j : String) (l : ItemLock)
        → JsMap.get j locks ≡ some l
        → lock_key l.item_id l.project_id ≡ j)
    → hits k (held_items keys locks) ≡ (JsSet.has k keys && is_some (JsMap.get k locks))
unfolding hits held_items JsSet.has
hits-held_items k [] locks keyed = refl
hits-held_items k (key ∷ keys) locks keyed = elim (Option-cases (JsMap.get key locks)) [
  | inl e ↦ ground (arith, hits-held_items k keys locks keyed, eq_iff key k)
  | inr (l, e) ↦ ground (arith, hits-held_items k keys locks keyed, eq_iff key k, keyed key l e)
]

abbrev pub is_expired : ℕ → Option ItemLock → Bool
is_expired now none = false
is_expired now (some l) = ltb l.expires_at now

hits-expired_items :
    (k : String) (now : ℕ) (locks : List (String × ItemLock))
    → ((j : String) (l : ItemLock)
        → JsMap.get j locks ≡ some l
        → lock_key l.item_id l.project_id ≡ j)
    → JsMap.Distinct locks
    → hits k (expired_items now locks) ≡ is_expired now (JsMap.get k locks)
unfolding hits expired_items JsMap.get
hits-expired_items k now [] keyed d = refl
hits-expired_items k now ((j, l) ∷ m) keyed d =
    let own : lock_key l.item_id l.project_id ≡ j = keyed j l (ground (arith, eq_refl j)) in
    let rest =
      hits-expired_items k now m (λ i x p. keyed i x (ground (arith, eq_iff j i, d.0))) d.1 in
    ground (arith, own, rest, eq_iff j k, d.0)

-- In a consistent state releaseAllUserLocks takes away exactly the locks of the user: under every
-- key there is afterwards no lock of the user, and every other lock stands as it was.
pub get-release_all_user_locks :
    (now : ℕ) (user : String) (s : LockQueue) (k : String)
    → IsConsistent s
    → JsMap.get k (release_all_user_locks now user s).locks
      ≡ (if owned_by user (JsMap.get k s.locks) then none else JsMap.get k s.locks)
unfolding release_all_user_locks contains JsSet.has
get-release_all_user_locks now user s k c = elim (Option-cases (JsMap.get user s.user_locks)) [
  | inl e ↦ ground (arith, c.agree.tracked user k)
  | inr (keys, e) ↦ ground (
    arith,
    c.agree.tracked user k,
    get-release_each now (some user) (held_items keys s.locks) s k,
    hits-held_items k keys s.locks c.agree.keyed,
  )
]

-- In a consistent state cleanupExpiredLocks takes away exactly the locks that are expired at its
-- time: under every key an expired lock is gone, and every other lock stands as it was.
pub get-cleanup_expired_locks :
    (now : ℕ) (s : LockQueue) (k : String)
    → IsConsistent s
    → JsMap.get k (cleanup_expired_locks now s).locks
      ≡ (if is_expired now (JsMap.get k s.locks) then none else JsMap.get k s.locks)
unfolding cleanup_expired_locks
get-cleanup_expired_locks now s k c = ground (
  arith,
  get-release_each now none (expired_items now s.locks) s k,
  hits-expired_items k now s.locks c.agree.keyed c.agree.distinct,
)

-- ===== src/SyncGateway/Sound.antt =====
-- What the handlers of src/socket/sync.gateway.ts keep of its state.
use starsyncbackend.LockQueue.{LockQueue, init}
use starsyncbackend.LockQueue.Invariant.{IsConsistent, init-IsConsistent}
use starsyncbackend.LockQueue.History.{Call, step, step-IsConsistent}
use starsyncbackend.Prelude.{◌≡◌}
use starsyncbackend.SetMap.{IsProper}
use starsyncbackend.SyncGateway.{SyncGateway}

-- The states of the lock service that a sequence of its calls leads to, each run to its end.
pub data Reached : LockQueue → Type 0 where
  initially : Reached init
  next : (c : Call) {q : LockQueue} → Reached q → Reached (step c q)

pub Reached-IsConsistent : {q : LockQueue} → Reached q → IsConsistent q
Reached-IsConsistent initially = init-IsConsistent
Reached-IsConsistent (next c r) = step-IsConsistent c (Reached-IsConsistent r)

-- The rooms and the users' sets have no key twice, no empty set and no member twice, and the lock
-- service is in a state that its calls lead to.
pub record IsSound (g : SyncGateway) : Type 0 where
  pub rooms : IsProper g.rooms
  pub users : IsProper g.user_connections
  pub locks : Reached g.lock_queue

-- Nothing changes but the queued messages and who a connection is registered for.
pub record SameSets (g g' : SyncGateway) : Type 0 where
  pub rooms : g'.rooms ≡ g.rooms
  pub users : g'.user_connections ≡ g.user_connections
  pub locks : g'.lock_queue ≡ g.lock_queue

pub SameSets-IsSound : {g g' : SyncGateway} → SameSets g g' → IsSound g → IsSound g'
SameSets-IsSound q s = record {
  rooms = rw q.rooms s.rooms;
  users = rw q.users s.users;
  locks = rw q.locks s.locks;
}

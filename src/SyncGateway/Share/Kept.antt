-- ===== src/SyncGateway/Share/Kept.antt =====
-- The state of src/socket/sync.gateway.ts over registrations and shared projects.
use starsyncbackend.Prelude.{String, arith, inl, inr, Option-cases, Bool-cases}
use starsyncbackend.Json.{Json, is_truthy}
use starsyncbackend.SetMap.{add_member-IsProper}
use starsyncbackend.SyncGateway.{SyncGateway, Env, key_of, ShareQueueType}
use starsyncbackend.SyncGateway.Sound.{IsSound, SameSets}
use starsyncbackend.SyncGateway.Share.{
  register_user, handle_register_user, forward_share_event, queue_share_message,
  handle_share_project, handle_share_project_update, handle_share_payload, handle_update_payload,
  registered_id,
}
use starsyncbackend.SyncGateway.Share.Delivery.{register_user_lem}

register_user-IsSound :
    (e : Env) (client : String) (user : Json) {g : SyncGateway}
    → IsSound g
    → IsSound (register_user e client user g).0
register_user-IsSound e client user {g} s =
    let r = register_user_lem e client user g in
    record {
      rooms = rw r.2 s.rooms;
      users = rw r.0 (add_member-IsProper (key_of e user) client g.user_connections s.users);
      locks = rw r.3 s.locks;
    }

pub handle_register_user-IsSound :
    (e : Env) (client : String) (data' : Json) {g : SyncGateway}
    → IsSound g
    → IsSound (handle_register_user e client data' g).0
unfolding handle_register_user
handle_register_user-IsSound e client data' {g} s = elim (Option-cases (registered_id e data')) [
  | inl n ↦ rw (n, handle_register_user) s
  | inr (user, h) ↦
      rw (h, handle_register_user)
        (elim (Bool-cases (is_truthy user)) [
          | inl t ↦ rw t (register_user-IsSound e client user s)
          | inr t ↦ rw t s
        ])
]

forward_share_event-SameSets :
    (e : Env) (type : ShareQueueType) (recipient : String) (payload : Json) (g : SyncGateway)
    → SameSets g (forward_share_event e type recipient payload g).0
unfolding forward_share_event queue_share_message
forward_share_event-SameSets e type recipient payload g = record {
  rooms = ground arith;
  users = ground arith;
  locks = ground arith;
}

pub handle_share_project-SameSets :
    (e : Env) (client : String) (data' : Json) (g : SyncGateway)
    → SameSets g (handle_share_project e client data' g).0
unfolding handle_share_project handle_share_payload forward_share_event queue_share_message
handle_share_project-SameSets e client data' g = record {
  rooms = ground arith;
  users = ground arith;
  locks = ground arith;
}

pub handle_share_project_update-SameSets :
    (e : Env) (client : String) (data' : Json) (g : SyncGateway)
    → SameSets g (handle_share_project_update e client data' g).0
unfolding handle_share_project_update handle_update_payload forward_share_event queue_share_message
handle_share_project_update-SameSets e client data' g = record {
  rooms = ground arith;
  users = ground arith;
  locks = ground arith;
}

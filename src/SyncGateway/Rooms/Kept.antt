-- ===== src/SyncGateway/Rooms/Kept.antt =====
-- The state of src/socket/sync.gateway.ts over joining, leaving and closing.
use starsyncbackend.Prelude.{String, inl, inr, Option-cases, Bool-cases, ◌==◌}
use starsyncbackend.Json.{Json}
use starsyncbackend.JsMap
use starsyncbackend.LockQueue.History.{release_all}
use starsyncbackend.SetMap.{
  leave_every, add_member-IsProper, remove_member-IsProper, leave_every-IsProper,
}
use starsyncbackend.SyncGateway.{SyncGateway, Env, key_of}
use starsyncbackend.SyncGateway.Sound.{IsSound, next}
use starsyncbackend.SyncGateway.Rooms.{join_project, leave_project, handle_disconnect, forget_user}
use starsyncbackend.LockQueue.History.{step}

pub join_project-IsSound :
    (e : Env) (client : String) (project user : Json) {g : SyncGateway}
    → IsSound g
    → IsSound (join_project e client project user g).0
unfolding join_project
join_project-IsSound e client project user {g} s = record {
  rooms = add_member-IsProper (key_of e project) client g.rooms s.rooms;
  users = s.users;
  locks = s.locks;
}

pub leave_project-IsSound :
    (e : Env) (client : String) (project user : Json) {g : SyncGateway}
    → IsSound g
    → IsSound (leave_project e client project user g).0
unfolding leave_project
leave_project-IsSound e client project user {g} s =
    elim (Option-cases (JsMap.get (key_of e project) g.rooms)) [
      | inl n ↦ rw (n, leave_project) s
      | inr (clients, h) ↦
          rw (h, leave_project)
            (record {
              rooms = remove_member-IsProper (key_of e project) client g.rooms s.rooms;
              users = s.users;
              locks = s.locks;
            })
    ]

forget_user-IsSound :
    (e : Env) (client user : String) {g : SyncGateway}
    → IsSound g
    → IsSound (forget_user e client user g)
unfolding step
forget_user-IsSound e client user {g} s = record {
  rooms = s.rooms;
  users = remove_member-IsProper user client g.user_connections s.users;
  locks = next (release_all e.now user) s.locks;
}

pub handle_disconnect-IsSound :
    (e : Env) (client : String) {g : SyncGateway}
    → IsSound g
    → IsSound (handle_disconnect e client g)
unfolding handle_disconnect
handle_disconnect-IsSound e client {g} s =
    let left : IsSound (record g { rooms = leave_every client g.rooms }) = record {
      rooms = leave_every-IsProper client g.rooms s.rooms;
      users = s.users;
      locks = s.locks;
    } in
    elim (Option-cases (JsMap.get client g.client_to_user_id)) [
      | inl n ↦ rw (n, handle_disconnect) left
      | inr (user, h) ↦
          rw (h, handle_disconnect)
            (elim (Bool-cases (user == "")) [
              | inl t ↦ rw t left
              | inr t ↦ rw t (forget_user-IsSound e client user left)
            ])
    ]

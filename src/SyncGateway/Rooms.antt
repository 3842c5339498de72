-- ===== src/SyncGateway/Rooms.antt =====
-- `joinProject`, `leaveProject` and `handleDisconnect` of src/socket/sync.gateway.ts.
pub mod Membership
pub mod Kept
use starsyncbackend.Prelude.{String, List, [], ◌∷◌, ◌++◌, none, some, ◌==◌, if◌then◌else◌}
use starsyncbackend.Json.{Json, str, end, field, event_object}
use starsyncbackend.JsMap
use starsyncbackend.SetMap
use starsyncbackend.LockQueue.{release_all_user_locks}
use starsyncbackend.SyncGateway.{SyncGateway, Env, Sent, key_of, broadcast}

-- What the room is told of who came or went.
abbrev notification : String → Json → Json → Json
notification message user_id project_id =
    event_object "notification"
      (field "message" (str message) (field "userId" user_id (field "projectId" project_id end)))

pub join_project : Env → String → Json → Json → SyncGateway → SyncGateway × Sent
join_project e client project_id user_id g =
    let room = key_of e project_id in
    let g' = record g { rooms = SetMap.add_member room client g.rooms } in
    (
      g',
      (client, event_object "joinProject" (field "projectId" project_id end))
          ∷ broadcast e room (notification "joinProject" user_id project_id) g',
    )

pub leave_project : Env → String → Json → Json → SyncGateway → SyncGateway × Sent
leave_project e client project_id user_id g =
    let room = key_of e project_id in
    let g' = record g { rooms = SetMap.remove_member room client g.rooms } in
    elim (JsMap.get room g.rooms) [
      | none ↦ (g, [])
      | some clients ↦ (
        g',
        (client, event_object "leaveProject" (field "projectId" project_id end))
            ∷ broadcast e room (notification "leaveProject" user_id project_id) g',
      )
    ]

-- The part of `handleDisconnect` for a registered user; its locks are released to the end.
abbrev forget_user : Env → String → String → SyncGateway → SyncGateway
forget_user e client user_id g = record g {
  lock_queue = release_all_user_locks e.now user_id g.lock_queue;
  user_connections = SetMap.remove_member user_id client g.user_connections;
  client_to_user_id = JsMap.delete client g.client_to_user_id;
}

pub handle_disconnect : Env → String → SyncGateway → SyncGateway
handle_disconnect e client g =
    let g' = record g { rooms = SetMap.leave_every client g.rooms } in
    elim (JsMap.get client g.client_to_user_id) [
      | none ↦ g'
      | some user_id ↦ if user_id == "" then g' else forget_user e client user_id g'
    ]

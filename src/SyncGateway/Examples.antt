-- ===== src/SyncGateway/Examples.antt =====
-- Runs of src/socket/sync.gateway.ts: a room with two connections, and a user who is away.
use starsyncbackend.Prelude.{
  String, Bool, true, false, List, [], ◌∷◌, ◌++◌, map, Option, none, some, ◌≡◌, ◌≢◌, ◌⊎◌, ◌==◌,
  refl, inl, inr, arith, if◌then◌else◌, Bool-cases, get_or, subst,
}
use starsyncbackend.Json.{Json, null, str, obj, field, end, event_object}
use starsyncbackend.JsMap
use starsyncbackend.JsMap.{get-set, get-delete}
use starsyncbackend.JsSet
use starsyncbackend.SetMap.{members_of}
use starsyncbackend.LockQueue
use starsyncbackend.SyncGateway.{SyncGateway, Env, Sent, ShareQueueItem, share, send_all}
use starsyncbackend.SyncGateway.Relay.{cursor_position, handle_relay}
use starsyncbackend.SyncGateway.Relay.Recipients.{Relayed, handle_relay-Relayed}
use starsyncbackend.SyncGateway.Share.{register_user, queued_message, forward_share_event, event_of}
use starsyncbackend.SyncGateway.Share.Delivery.{
  pending, received, registered_ack, register_delivers,
}
use starsyncbackend.SyncGateway.Share.Forward.{forward_share_event_lem}
use starsyncbackend.SyncGateway.Locks.{handle_lock_released}
use starsyncbackend.SyncGateway.Sound.{IsSound}
use starsyncbackend.SyncGateway.Messages.{message, tick, close, history, start}
use starsyncbackend.SyncGateway.Messages.Invariant.{history-IsSound}
use starsyncbackend.SyncGateway.Locks.Announced.{OnlyRelease, no_edit_announced}

abbrev env : Env
env = record { is_open = λ c. true; now = 5; parse = λ t. none; to_text = λ v. "" }

abbrev waiting_item : ShareQueueItem
waiting_item = record { type = share; payload = null; queued_at = 3 }

abbrev gateway : SyncGateway
gateway = record {
  rooms = ("song", "c1" ∷ "c2" ∷ []) ∷ [];
  user_connections = ("alice", "c1" ∷ []) ∷ [];
  client_to_user_id = ("c1", "alice") ∷ [];
  pending_messages = ("bob", waiting_item ∷ []) ∷ [];
  lock_queue = LockQueue.init;
}

room-Unique :
    (k : String) (o : Option (List String))
    → JsMap.get k gateway.rooms ≡ o
    → JsSet.Unique (get_or o [])
unfolding JsMap.get JsSet.has
room-Unique k none e = tt
room-Unique k (some clients) e = elim (Bool-cases ("song" == k)) [
  | inl same ↦
      let found : "c1" ∷ "c2" ∷ [] ≡ clients = ground (arith, e, same) in
      subst (λ xs. JsSet.Unique xs) found (refl, (refl, tt))
  | inr different ↦ absurd (ground (arith, e, different))
]

abbrev cursor : Json
cursor =
    obj (
      field "projectId" (str "song")
        (field "userId" (str "alice") (field "position" (str "4") end)))

handle_relay-Relayed_example :
    Relayed cursor_position env "c1" cursor gateway
      (handle_relay cursor_position env "c1" cursor gateway)
handle_relay-Relayed_example = handle_relay-Relayed cursor_position env "c1" cursor gateway

bob_away : JsSet.Unique (members_of "bob" gateway.user_connections)
unfolding JsMap.get
bob_away = tt

register_delivers_example :
    (received "c2" (register_user env "c2" (str "bob") gateway).1
      ≡ registered_ack "bob" ∷ map queued_message (pending "bob" gateway))
    × ((k : String)
        → pending k (register_user env "c2" (str "bob") gateway).0
          ≡ (if "bob" == k then [] else pending k gateway))
register_delivers_example = register_delivers env "c2" "bob" gateway refl bob_away

abbrev shared : SyncGateway × Sent × Bool
shared = forward_share_event env share "carol" null gateway

forward_share_event_lem_example :
    ((shared.2 ≡ true)
      × (shared.0 ≡ gateway)
      × (shared.1
          ≡ send_all env
              (event_object (event_of share) (field "data" null end))
              (members_of "carol" gateway.user_connections))
      × (shared.1 ≢ []))
    ⊎ ((shared.2 ≡ false)
        × (shared.1 ≡ [])
        × ((c : String)
            → JsSet.has c (members_of "carol" gateway.user_connections) ≡ true
            → env.is_open c ≡ false)
        × ((k : String)
            → pending k shared.0 ≡ (
                if "carol" == k
                then pending k gateway
                  ++ record { type = share; payload = null; queued_at = 5 } ∷ []
                else pending k gateway))
        × (shared.0.rooms ≡ gateway.rooms)
        × (shared.0.user_connections ≡ gateway.user_connections))
forward_share_event_lem_example = forward_share_event_lem env share "carol" null gateway

abbrev release_payload : Json
release_payload = obj (
    field "itemId" (str "clip") (field "userId" (str "alice") (field "projectId" (str "song") end)))

no_edit_announced_example :
    OnlyRelease env gateway (handle_lock_released 9 env "c1" release_payload gateway).1
no_edit_announced_example = no_edit_announced 9 env "c1" release_payload gateway

-- A user joins, and the connection closes.
abbrev join_text : Env
join_text = record {
  is_open = λ c. true;
  now = 5;
  parse = λ t. some (
      obj (
        field "event" (str "joinProject") (
          field "data" (obj (field "projectId" (str "song") (field "userId" (str "alice") end)))
            end)));
  to_text = λ v. "";
}

history-IsSound_example :
    IsSound (history (message 6 join_text "c1" "joins" ∷ tick 7 ∷ close join_text "c1" ∷ []) start)
history-IsSound_example =
    history-IsSound (message 6 join_text "c1" "joins" ∷ tick 7 ∷ close join_text "c1" ∷ [])

-- ===== src/SyncGateway/Share/Delivery.antt =====
-- What a registration and a shared project do to the connections and to the queued messages.
use starsyncbackend.Prelude.{
  String, true, false, List, [], ◌∷◌, ◌++◌, map, ◌==◌, if◌then◌else◌, ◌≡◌, refl, arith, eq_iff,
  eq_refl, get_or,
}
use starsyncbackend.Json.{Json, str, end, field, event_object}
use starsyncbackend.JsMap
use starsyncbackend.JsMap.{get-set, get-delete}
use starsyncbackend.JsSet
use starsyncbackend.SetMap.{add_member, members_of, contains, contains-add_member}
use starsyncbackend.SyncGateway.{
  SyncGateway, Env, Sent, ShareQueueItem, key_of, send_json, send_all,
}
use starsyncbackend.SyncGateway.Share.{register_user, flush_queued_messages, flush, queued_message}

flush_queued_messages-rest :
    (e : Env) (user : String) (g : SyncGateway)
    → let g' = (flush_queued_messages e user g).0 in
      (g'.user_connections ≡ g.user_connections)
      × (g'.client_to_user_id ≡ g.client_to_user_id)
      × (g'.rooms ≡ g.rooms)
      × (g'.lock_queue ≡ g.lock_queue)
unfolding flush_queued_messages
flush_queued_messages-rest e user g = ground arith

pub register_user_lem :
    (e : Env) (client : String) (user : Json) (g : SyncGateway)
    → let g' = (register_user e client user g).0 in
      (g'.user_connections ≡ add_member (key_of e user) client g.user_connections)
      × (g'.client_to_user_id ≡ JsMap.set client (key_of e user) g.client_to_user_id)
      × (g'.rooms ≡ g.rooms)
      × (g'.lock_queue ≡ g.lock_queue)
unfolding register_user
register_user_lem e client user g = flush_queued_messages-rest e (key_of e user) _

-- The messages that wait for a user.
abbrev pub pending : String → SyncGateway → List ShareQueueItem
pending user g = get_or (JsMap.get user g.pending_messages) []

-- What one connection is sent.
pub received : String → Sent → List Json
received client [] = []
received client ((c, message) ∷ sent) =
    if c == client then message ∷ received client sent else received client sent

pub received-append :
    (client : String) (xs ys : Sent)
    → received client (xs ++ ys) ≡ received client xs ++ received client ys
unfolding received
received-append client [] ys = refl
received-append client ((c, message) ∷ xs) ys = ground (arith, received-append client xs ys)

received_none :
    (e : Env) (client : String) (message : Json) (clients : List String)
    → JsSet.has client clients ≡ false
    → received client (send_all e message clients) ≡ []
unfolding received send_all JsSet.has
received_none e client message [] h = refl
received_none e client message (c ∷ cs) h = ground (arith, received_none e client message cs)

-- An open connection of the set gets the message once.
received_once :
    (e : Env) (client : String) (message : Json) (clients : List String)
    → e.is_open client ≡ true
    → JsSet.has client clients ≡ true
    → JsSet.Unique clients
    → received client (send_all e message clients) ≡ message ∷ []
unfolding received send_all JsSet.has
received_once e client message [] o h u = cc
received_once e client message (c ∷ cs) o h u = ground (
  arith,
  received_once e client message cs,
  received_none e client message cs,
  eq_iff c client,
  u.0,
  u.1,
)

received-flush :
    (e : Env) (client : String) (clients : List String) (queue : List ShareQueueItem)
    → e.is_open client ≡ true
    → JsSet.has client clients ≡ true
    → JsSet.Unique clients
    → received client (flush e clients queue) ≡ map queued_message queue
unfolding flush
received-flush e client clients [] o h u = unfold received in refl
received-flush e client clients (item ∷ queue) o h u = rw (
  received-append client (send_all e (queued_message item) clients) (flush e clients queue),
  received_once e client (queued_message item) clients o h u,
  received-flush e client clients queue o h u,
)

flush_queued_messages_lem :
    (e : Env) (user : String) (g : SyncGateway)
    → JsSet.is_empty (members_of user g.user_connections) ≡ false
    → ((flush_queued_messages e user g).1
        ≡ flush e (members_of user g.user_connections) (pending user g))
      × ((k : String)
          → pending k (flush_queued_messages e user g).0 ≡ (if user == k then [] else pending k g))
unfolding flush_queued_messages flush
flush_queued_messages_lem e user g some_client =
    (ground arith, λ k. ground (arith, get-delete user k g.pending_messages, eq_iff user k))

has-add_member :
    (user client : String) (m : List (String × List String))
    → JsSet.has client (members_of user (add_member user client m)) ≡ true
unfolding contains
has-add_member user client m =
    ground (arith, contains-add_member user client user client m, eq_refl user, eq_refl client)

add_member_not_empty :
    (user client : String) (m : List (String × List String))
    → JsSet.is_empty (members_of user (add_member user client m)) ≡ false
unfolding add_member
add_member_not_empty user client m = ground (
  arith,
  get-set user user (JsSet.add client (members_of user m)) m,
  eq_refl user,
  JsSet.is_empty-add client (members_of user m),
)

add_member-Unique :
    (user client : String) (m : List (String × List String))
    → JsSet.Unique (members_of user m)
    → JsSet.Unique (members_of user (add_member user client m))
unfolding add_member
add_member-Unique user client m u = ground (
  arith,
  get-set user user (JsSet.add client (members_of user m)) m,
  eq_refl user,
  JsSet.add-Unique client (members_of user m) u,
)

abbrev pub registered_ack : String → Json
registered_ack user =
    event_object "registerUser" (field "userId" (str user) (field "status" (str "ok") end))

-- When an open connection registers for a user, whose set of connections has none twice, it gets
-- the acknowledgement and then each message that waited for the user, once and in the order of
-- queueing; after that none waits for the user, and what waits for others is as before.
pub register_delivers :
    (e : Env) (client user : String) (g : SyncGateway)
    → e.is_open client ≡ true
    → JsSet.Unique (members_of user g.user_connections)
    → (received client (register_user e client (str user) g).1
        ≡ registered_ack user ∷ map queued_message (pending user g))
      × ((k : String)
          → pending k (register_user e client (str user) g).0
            ≡ (if user == k then [] else pending k g))
unfolding register_user
register_delivers e client user g o u =
    let m = add_member user client g.user_connections in
    let g' = record g {
      user_connections = m;
      client_to_user_id = JsMap.set client user g.client_to_user_id;
    } in
    let spec =
      flush_queued_messages_lem e user g' (add_member_not_empty user client g.user_connections) in
    let flushed =
      received-flush e client (members_of user m) (pending user g) o
        (has-add_member user client g.user_connections)
        (add_member-Unique user client g.user_connections u) in
    (
      rw
          (
            received-append client (send_json e client (registered_ack user))
                (flush_queued_messages e user g').1,
            spec.0,
            flushed,
          )
          (unfold received send_json in ground (arith, o, eq_refl client)),
      spec.1,
    )

-- ===== src/SyncGateway/Rooms/Membership.antt =====
-- Who is in a room or registered for a user of src/socket/sync.gateway.ts, after a connection closes.
use starsyncbackend.Prelude.{
  String, Bool, true, false, Option, none, some, ◌==◌, if◌then◌else◌, ◌≡◌, ◌≢◌, ◌⊎◌, arith, eq_iff,
  eq_refl, Option-cases, inl, inr,
}
use starsyncbackend.Json.{str}
use starsyncbackend.JsMap
use starsyncbackend.JsMap.{get-set, get-delete}
use starsyncbackend.SetMap.{
  IsProper, contains, contains-leave_every, contains-remove_member, contains-add_member,
}
use starsyncbackend.SyncGateway.{SyncGateway, Env}
use starsyncbackend.SyncGateway.Rooms.{handle_disconnect}
use starsyncbackend.SyncGateway.Share.{register_user}
use starsyncbackend.SyncGateway.Share.Delivery.{register_user_lem}

-- The connection is registered for this user.
abbrev pub is_user : String → Option String → Bool
is_user u none = false
is_user u (some v) = v == u

-- The two maps of registrations agree, and nobody is registered for the empty name.
pub record Agree (g : SyncGateway) : Type 0 where
  pub same :
      (u c : String) → contains u c g.user_connections ≡ is_user u (JsMap.get c g.client_to_user_id)
  pub named : (c u : String) → JsMap.get c g.client_to_user_id ≡ some u → (u == "") ≡ false

-- When a connection closes, where the rooms are proper and the two maps of registrations agree, it
-- is in no room, registered for no user and has no user; every other connection is in the rooms and
-- registered for the users as before.
pub disconnect_forgets :
    (e : Env) (client : String) (g : SyncGateway)
    → IsProper g.rooms
    → Agree g
    → let g' = handle_disconnect e client g in
      ((r c : String)
        → contains r c g'.rooms ≡ (if client == c then false else contains r c g.rooms))
      × ((u c : String)
          → contains u c g'.user_connections
            ≡ (if client == c then false else contains u c g.user_connections))
      × ((c : String)
          → JsMap.get c g'.client_to_user_id
            ≡ (if client == c then none else JsMap.get c g.client_to_user_id))
unfolding handle_disconnect
disconnect_forgets e client g p a = elim (Option-cases (JsMap.get client g.client_to_user_id)) [
  | inl n ↦ (
    λ r c. ground (arith, n, contains-leave_every client r c g.rooms p.distinct),
    λ u c. ground (arith, n, a.same u c, eq_iff client c),
    λ c. ground (arith, n, eq_iff client c),
  )
  | inr (user, s) ↦ (
    λ r c. ground (arith, s, contains-leave_every client r c g.rooms p.distinct),
    λ u c. ground (
      arith,
      s,
      a.same u c,
      a.named client user s,
      eq_iff client c,
      eq_iff user u,
      contains-remove_member user client u c g.user_connections,
    ),
    λ c.
        ground (
          arith,
          s,
          a.named client user s,
          eq_iff client c,
          get-delete client c g.client_to_user_id,
        ),
  )
]

-- A registration, for a user with a name, of a connection that has no other user keeps the two maps
-- of registrations in agreement.
pub register_user-Agree :
    (e : Env) (client user : String) (g : SyncGateway)
    → (user == "") ≡ false
    → (JsMap.get client g.client_to_user_id ≡ none)
      ⊎ (JsMap.get client g.client_to_user_id ≡ some user)
    → Agree g
    → Agree (register_user e client (str user) g).0
register_user-Agree e client user g named only a =
    let r = register_user_lem e client (str user) g in
    record {
      same = λ u c.
          rw (r.0, r.1)
            (ground (
              arith,
              contains-add_member user client u c g.user_connections,
              a.same u c,
              get-set client c user g.client_to_user_id,
              eq_iff client c,
              eq_iff user u,
              only,
            ));
      named = λ c u h.
          let h' = rw r.1 at h in
          ground (
            arith,
            h',
            a.named c u,
            get-set client c user g.client_to_user_id,
            eq_iff client c,
            named,
          );
    }

-- A closing connection leaves the set of its present user alone.
disconnect_other :
    (e : Env) (client u v : String) (g : SyncGateway)
    → JsMap.get client g.client_to_user_id ≡ some v
    → u ≢ v
    → contains u client g.user_connections ≡ true
    → contains u client (handle_disconnect e client g).user_connections ≡ true
unfolding handle_disconnect
disconnect_other e client u v g s ne h =
    ground (arith, s, contains-remove_member v client u client g.user_connections, eq_iff v u)

-- A connection that registers for one user and then for another stays among the first user's
-- connections: it is there after the second registration, and still after it has closed.
reregister_leaks :
    (e : Env) (client u v : String) (g : SyncGateway)
    → u ≢ v
    → let g1 = (register_user e client (str u) g).0 in
      let g2 = (register_user e client (str v) g1).0 in
      (contains u client g2.user_connections ≡ true)
      × (JsMap.get client g2.client_to_user_id ≡ some v)
      × (contains u client (handle_disconnect e client g2).user_connections ≡ true)
reregister_leaks e client u v g ne =
    let r1 = register_user_lem e client (str u) g in
    let g1 = (register_user e client (str u) g).0 in
    let r2 = register_user_lem e client (str v) g1 in
    let g2 = (register_user e client (str v) g1).0 in
    let there : contains u client g2.user_connections ≡ true = ground (
      arith,
      r1.0,
      r2.0,
      contains-add_member u client u client g.user_connections,
      eq_refl u,
      eq_refl client,
      contains-add_member v client u client g1.user_connections,
      eq_iff v u,
    ) in
    let now_v : JsMap.get client g2.client_to_user_id ≡ some v =
      ground (arith, r2.1, get-set client client v g1.client_to_user_id, eq_refl client) in
    (there, now_v, disconnect_other e client u v g2 now_v ne there)

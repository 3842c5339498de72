-- ===== src/NotificationGateway/Registered.antt =====
-- Who is subscribed in src/socket/notification.gateway.ts: its two maps agree over any history.
use starsyncbackend.Prelude.{
  String, Bool, true, false, Option, none, some, List, [], ◌∷◌, ◌==◌, ◌≡◌, refl, ◌⊎◌, arith, eq_iff,
  eq_refl, Option-cases, Bool-cases, inl, inr,
}
use starsyncbackend.JsMap
use starsyncbackend.JsMap.{get-set, get-delete}
use starsyncbackend.JsSet
use starsyncbackend.Jwt.{JwtLibrary}
use starsyncbackend.SetMap.{
  IsProper, contains, contains-remove_member, contains-add_member, add_member-IsProper,
  remove_member-IsProper, empty-IsProper,
}
use starsyncbackend.NotificationGateway.{
  NotificationGateway, UserSubscription, SubscriptionMessage, start, handle_disconnect,
  handle_subscribe, handle_subscribe_project_invitations, handle_subscribe_friend_requests,
  get_or_create, add_channel, is_verified, subscribed,
}

-- The subscription is the user's.
abbrev pub belongs : String → Option UserSubscription → Bool
belongs u none = false
belongs u (some s) = s.user_id == u

-- The two maps agree, both are maps and the sets are sets, and a subscription holds its own socket.
pub record Agree (g : NotificationGateway) : Type 0 where
  pub same :
      (u c : String) → contains u c g.user_sockets ≡ belongs u (JsMap.get c g.user_subscriptions)
  pub own :
      (c : String) (s : UserSubscription) → JsMap.get c g.user_subscriptions ≡ some s → s.socket ≡ c
  pub distinct : JsMap.Distinct g.user_subscriptions
  pub proper : IsProper g.user_sockets

start-Agree : Agree start
unfolding start JsMap.get contains JsSet.has
start-Agree = record {
  same = λ u c. refl;
  own = λ c s h. cc;
  distinct = tt;
  proper = empty-IsProper;
}

handle_disconnect-Agree :
    (client : String) (g : NotificationGateway) → Agree g → Agree (handle_disconnect client g)
unfolding handle_disconnect
handle_disconnect-Agree client g a = elim (Option-cases (JsMap.get client g.user_subscriptions)) [
  | inl n ↦ rw (n, handle_disconnect) a
  | inr (s, h) ↦
      rw (h, handle_disconnect)
        (record {
          same = λ u c. ground (
            arith,
            h,
            a.same u c,
            eq_iff client c,
            eq_iff s.user_id u,
            contains-remove_member s.user_id client u c g.user_sockets,
            get-delete client c g.user_subscriptions,
          );
          own = λ c t k. ground (arith, get-delete client c g.user_subscriptions, a.own c t, k);
          distinct = JsMap.Distinct-delete client g.user_subscriptions a.distinct;
          proper = remove_member-IsProper s.user_id client g.user_sockets a.proper;
        })
]

get_or_create-Agree :
    (client user : String) (g : NotificationGateway)
    → Agree g
    → Agree (get_or_create client user g).1
      × (JsMap.get client (get_or_create client user g).1.user_subscriptions
          ≡ some (get_or_create client user g).0)
unfolding get_or_create
get_or_create-Agree client user g a = elim (Option-cases (JsMap.get client g.user_subscriptions)) [
  | inr (s, h) ↦ rw (h, get_or_create) (a, h)
  | inl n ↦
      let s : UserSubscription = record { user_id = user; channels = []; socket = client } in
      rw (n, get_or_create)
        (
          record {
            same = λ u c. ground (
              arith,
              n,
              a.same u c,
              eq_iff client c,
              eq_iff user u,
              contains-add_member user client u c g.user_sockets,
              get-set client c s g.user_subscriptions,
            );
            own = λ c t k.
                ground
                  (arith, get-set client c s g.user_subscriptions, a.own c t, k, eq_iff client c);
            distinct = JsMap.Distinct-set client s g.user_subscriptions a.distinct;
            proper = add_member-IsProper user client g.user_sockets a.proper;
          },
          ground (arith, get-set client client s g.user_subscriptions, eq_refl client),
        )
]

add_channel-Agree :
    (client channel : String) (s : UserSubscription) (g : NotificationGateway)
    → Agree g
    → JsMap.get client g.user_subscriptions ≡ some s
    → Agree (add_channel client channel s g)
unfolding add_channel
add_channel-Agree client channel s g a h =
    let t : UserSubscription = record s { channels = JsSet.add channel s.channels } in
    record {
      same = λ u c.
          ground (arith, h, a.same u c, eq_iff client c, get-set client c t g.user_subscriptions);
      own = λ c x k. ground (
        arith,
        h,
        a.own c x,
        a.own client s h,
        k,
        eq_iff client c,
        get-set client c t g.user_subscriptions,
      );
      distinct = JsMap.Distinct-set client t g.user_subscriptions a.distinct;
      proper = a.proper;
    }

-- A request that is refused changes nothing; any other leads to the state with the channel added.
pub handle_subscribe_cases :
    (l : JwtLibrary) (client : String) (m : SubscriptionMessage) (g : NotificationGateway)
    → ((handle_subscribe l client m g).0 ≡ g)
      ⊎ (((m.token == "") ≡ false)
          × (is_verified l m ≡ true)
          × ((handle_subscribe l client m g) ≡ (
              let (s, g') = get_or_create client m.user_id g in
              (add_channel client m.channel s g', subscribed client m))))
unfolding handle_subscribe
handle_subscribe_cases l client m g = elim (Bool-cases (m.token == "")) [
  | inl e ↦ inl (ground (arith, e))
  | inr e ↦ elim (Bool-cases (is_verified l m)) [
    | inl v ↦ inr (e, v, rw (e, v, handle_subscribe) refl)
    | inr v ↦ inl (ground (arith, e, v))
  ]
]

handle_subscribe-Agree :
    (l : JwtLibrary) (client : String) (m : SubscriptionMessage) (g : NotificationGateway)
    → Agree g
    → Agree (handle_subscribe l client m g).0
handle_subscribe-Agree l client m g a = elim (handle_subscribe_cases l client m g) [
  | inl e ↦ rw e a
  | inr (e, v, h) ↦
      let (a', k) = get_or_create-Agree client m.user_id g a in
      rw h (add_channel-Agree client m.channel _ _ a' k)
]

pub data Call : Type 0 where
  subscribe : String → SubscriptionMessage → Call
  subscribe_project_invitations : String → String → Option String → Call
  subscribe_friend_requests : String → String → Option String → Call
  disconnect : String → Call

unfoldable pub step : JwtLibrary → Call → NotificationGateway → NotificationGateway
step l (subscribe client m) g = (handle_subscribe l client m g).0
step l (subscribe_project_invitations client user token) g =
    (handle_subscribe_project_invitations l client user token g).0
step l (subscribe_friend_requests client user token) g =
    (handle_subscribe_friend_requests l client user token g).0
step l (disconnect client) g = handle_disconnect client g

unfoldable pub run : JwtLibrary → List Call → NotificationGateway → NotificationGateway
run l [] g = g
run l (c ∷ cs) g = run l cs (step l c g)

step-Agree : (l : JwtLibrary) (c : Call) (g : NotificationGateway) → Agree g → Agree (step l c g)
unfolding step handle_subscribe_project_invitations handle_subscribe_friend_requests
step-Agree l (subscribe client m) g a = handle_subscribe-Agree l client m g a
step-Agree l (subscribe_project_invitations client user token) g a =
    handle_subscribe-Agree l client _ g a
step-Agree l (subscribe_friend_requests client user token) g a =
    handle_subscribe-Agree l client _ g a
step-Agree l (disconnect client) g a = handle_disconnect-Agree client g a

run_keeps :
    (l : JwtLibrary) (cs : List Call) (g : NotificationGateway) → Agree g → Agree (run l cs g)
unfolding run
run_keeps l [] g a = a
run_keeps l (c ∷ cs) g a = run_keeps l cs (step l c g) (step-Agree l c g a)

-- After any history of subscriptions and disconnections, whatever tokens come with them, the two
-- maps of the notification gateway agree: a socket is among a user's sockets exactly if its
-- subscription is the user's; every subscription holds its own socket, no socket and no user stands
-- twice, and no user has an empty set.
pub run-Agree : (l : JwtLibrary) (cs : List Call) → Agree (run l cs start)
run-Agree l cs = run_keeps l cs start start-Agree

-- ===== src/NotificationGateway/Verified.antt =====
-- Who may subscribe in src/socket/notification.gateway.ts.
use starsyncbackend.Prelude.{
  String, Bool, true, false, not, ◌&&◌, ◌||◌, Option, none, some, List, [], ◌∷◌, ◌==◌, ◌≡◌, ◌≢◌,
  ◌⊎◌, refl, arith, eq_iff, eq_refl, Option-cases, inl, inr, get_or, if◌then◌else◌,
}
use starsyncbackend.JsMap
use starsyncbackend.JsMap.{get-set, get-delete}
use starsyncbackend.JsSet
use starsyncbackend.JsSet.{has-add, has-is_empty}
use starsyncbackend.Jwt.{JwtLibrary}
use starsyncbackend.NotificationGateway.{
  NotificationGateway, UserSubscription, SubscriptionMessage, start, handle_disconnect,
  handle_subscribe, handle_subscribe_project_invitations, handle_subscribe_friend_requests,
  get_or_create, add_channel, is_verified, subscribed, listens,
}
use starsyncbackend.NotificationGateway.Registered.{
  belongs, Call, subscribe, subscribe_project_invitations, subscribe_friend_requests, disconnect,
  step, run, handle_subscribe_cases,
}
use starsyncbackend.NotificationGateway.Delivery.{is_reached}

-- The socket and the message of a call that subscribes.
abbrev pub request_of : Call → Option (String × SubscriptionMessage)
request_of (subscribe client m) = some (client, m)
request_of (subscribe_project_invitations client user token) =
    some
      (client, record { channel = "projectInvitations"; token = get_or token ""; user_id = user })
request_of (subscribe_friend_requests client user token) =
    some (client, record { channel = "friendRequests"; token = get_or token ""; user_id = user })
request_of (disconnect client) = none

-- The call subscribes the socket with a token that names the message's user, and the message passes
-- the test.
abbrev pub proves : JwtLibrary → String → (SubscriptionMessage → Bool) → Call → Bool
proves l c test call = elim (request_of call) [
  | none ↦ false
  | some (client, m) ↦ client == c && not (m.token == "") && is_verified l m && test m
]

abbrev pub any : (Call → Bool) → List Call → Bool
any p [] = false
any p (c ∷ cs) = p c || any p cs

-- The subscription that a request on the socket finds, or makes for the user.
abbrev subscription_at : String → String → NotificationGateway → UserSubscription
subscription_at client user_id g =
    get_or (JsMap.get client g.user_subscriptions)
      (record { user_id = user_id; channels = []; socket = client })

-- The subscriptions after a request that is not refused.
pub get-handle_subscribe :
    (l : JwtLibrary) (client : String) (m : SubscriptionMessage) (g : NotificationGateway)
    → ((m.token == "") ≡ false)
    → (is_verified l m ≡ true)
    → let s = subscription_at client m.user_id g in
      ((c : String)
        → JsMap.get c (handle_subscribe l client m g).0.user_subscriptions ≡ (
            if client == c
            then some (record s { channels = JsSet.add m.channel s.channels })
            else JsMap.get c g.user_subscriptions))
      × ((handle_subscribe l client m g).1 ≡ subscribed client m)
unfolding handle_subscribe get_or_create add_channel
get-handle_subscribe l client m g e v =
    elim (Option-cases (JsMap.get client g.user_subscriptions)) [
      | inl n ↦
          let s : UserSubscription = record {
            user_id = m.user_id;
            channels = [];
            socket = client;
          } in
          let t : UserSubscription = record s { channels = JsSet.add m.channel [] } in
          (
            λ c. ground (
              arith,
              e,
              v,
              n,
              get-set client c t (JsMap.set client s g.user_subscriptions),
              get-set client c s g.user_subscriptions,
            ),
            ground (arith, e, v, n),
          )
      | inr (s, n) ↦
          let t : UserSubscription = record s { channels = JsSet.add m.channel s.channels } in
          (
            λ c. ground (arith, e, v, n, get-set client c t g.user_subscriptions),
            ground (arith, e, v, n),
          )
    ]

-- A request lets a socket belong to a user only by a token that names the user.
handle_subscribe-belongs :
    (l : JwtLibrary) (client : String) (m : SubscriptionMessage) (g : NotificationGateway)
    (u c : String)
    → belongs u (JsMap.get c (handle_subscribe l client m g).0.user_subscriptions) ≡ true
    → (belongs u (JsMap.get c g.user_subscriptions) ≡ true)
      ⊎ ((client == c && not (m.token == "") && is_verified l m && m.user_id == u) ≡ true)
handle_subscribe-belongs l client m g u c h = elim (handle_subscribe_cases l client m g) [
  | inl e ↦ inl (rw e at h)
  | inr (e, v, k) ↦ elim (Option-cases (JsMap.get client g.user_subscriptions)) [
    | inl n ↦
        ground (arith, e, v, n, (get-handle_subscribe l client m g e v).0 c, h, eq_iff client c)
    | inr (s, n) ↦
        ground (arith, e, v, n, (get-handle_subscribe l client m g e v).0 c, h, eq_iff client c)
  ]
]

-- So it is with a channel and a request for the channel.
handle_subscribe-listens :
    (l : JwtLibrary) (client : String) (m : SubscriptionMessage) (g : NotificationGateway)
    (channel c : String)
    → listens channel c (handle_subscribe l client m g).0 ≡ true
    → (listens channel c g ≡ true)
      ⊎ ((client == c && not (m.token == "") && is_verified l m && m.channel == channel) ≡ true)
unfolding listens
handle_subscribe-listens l client m g channel c h = elim (handle_subscribe_cases l client m g) [
  | inl e ↦ inl (rw e at h)
  | inr (e, v, k) ↦ elim (Option-cases (JsMap.get client g.user_subscriptions)) [
    | inl n ↦ ground (
      arith,
      e,
      v,
      n,
      (get-handle_subscribe l client m g e v).0 c,
      h,
      eq_iff client c,
      has-add m.channel channel [],
      has-is_empty channel [] refl,
    )
    | inr (s, n) ↦ ground (
      arith,
      e,
      v,
      n,
      (get-handle_subscribe l client m g e v).0 c,
      h,
      eq_iff client c,
      has-add m.channel channel s.channels,
    )
  ]
]

-- Either holds of the state, or one of the calls proves it.
module _ (l : JwtLibrary) where
  step-belongs :
      (u c : String) (call : Call) (g : NotificationGateway)
      → belongs u (JsMap.get c (step l call g).user_subscriptions) ≡ true
      → (belongs u (JsMap.get c g.user_subscriptions) ≡ true)
        ⊎ (proves l c (λ m. m.user_id == u) call ≡ true)
  unfolding step handle_subscribe_project_invitations handle_subscribe_friend_requests
      handle_disconnect
  step-belongs u c (subscribe client m) g h = handle_subscribe-belongs l client m g u c h
  step-belongs u c (subscribe_project_invitations client user token) g h =
      handle_subscribe-belongs l client _ g u c h
  step-belongs u c (subscribe_friend_requests client user token) g h =
      handle_subscribe-belongs l client _ g u c h
  step-belongs u c (disconnect client) g h =
      elim (Option-cases (JsMap.get client g.user_subscriptions)) [
        | inl n ↦ inl (ground (arith, n, h))
        | inr (s, n) ↦ inl (ground (arith, n, h, get-delete client c g.user_subscriptions))
      ]

  step-listens :
      (channel c : String) (call : Call) (g : NotificationGateway)
      → listens channel c (step l call g) ≡ true
      → (listens channel c g ≡ true) ⊎ (proves l c (λ m. m.channel == channel) call ≡ true)
  unfolding step handle_subscribe_project_invitations handle_subscribe_friend_requests
      handle_disconnect listens
  step-listens channel c (subscribe client m) g h =
      handle_subscribe-listens l client m g channel c h
  step-listens channel c (subscribe_project_invitations client user token) g h =
      handle_subscribe-listens l client _ g channel c h
  step-listens channel c (subscribe_friend_requests client user token) g h =
      handle_subscribe-listens l client _ g channel c h
  step-listens channel c (disconnect client) g h =
      elim (Option-cases (JsMap.get client g.user_subscriptions)) [
        | inl n ↦ inl (ground (arith, n, h))
        | inr (s, n) ↦ inl (ground (arith, n, h, get-delete client c g.user_subscriptions))
      ]

  run-belongs :
      (u c : String) (calls : List Call) (g : NotificationGateway)
      → belongs u (JsMap.get c (run l calls g).user_subscriptions) ≡ true
      → (belongs u (JsMap.get c g.user_subscriptions) ≡ true)
        ⊎ (any (proves l c (λ m. m.user_id == u)) calls ≡ true)
  unfolding run
  run-belongs u c [] g h = inl h
  run-belongs u c (call ∷ calls) g h = elim (run-belongs u c calls (step l call g) h) [
    | inl before ↦ elim (step-belongs u c call g before) [ inl b ↦ inl b | inr p ↦ inr (rw p refl) ]
    | inr later ↦ inr (ground (arith, later))
  ]

  run-listens :
      (channel c : String) (calls : List Call) (g : NotificationGateway)
      → listens channel c (run l calls g) ≡ true
      → (listens channel c g ≡ true) ⊎ (any (proves l c (λ m. m.channel == channel)) calls ≡ true)
  unfolding run
  run-listens channel c [] g h = inl h
  run-listens channel c (call ∷ calls) g h = elim (run-listens channel c calls (step l call g) h) [
    | inl before ↦ elim (step-listens channel c call g before) [
      | inl b ↦ inl b
      | inr p ↦ inr (rw p refl)
    ]
    | inr later ↦ inr (ground (arith, later))
  ]

  -- Where, after any history of subscriptions and disconnections from the start, a notice to a user
  -- on a channel reaches a socket, the history has a request on that socket for the user, and one
  -- for the channel, each with a token that names the request's user.
  pub reached-Verified :
      (user channel c : String) (calls : List Call)
      → is_reached user channel c (run l calls start) ≡ true
      → (any (proves l c (λ m. m.user_id == user)) calls ≡ true)
        × (any (proves l c (λ m. m.channel == channel)) calls ≡ true)
  unfolding start listens JsMap.get
  reached-Verified user channel c calls h = (
    ground (arith, h, run-belongs user c calls start),
    ground (arith, h, run-listens channel c calls start),
  )

-- On a socket that is subscribed for one user, a request for another user with that user's token is
-- acknowledged for the other user, who gets no notice there on any channel; the first user gets the
-- notices there on the channel of the request.
pub other_user_lem :
    (l : JwtLibrary) (client : String) (m : SubscriptionMessage) (s : UserSubscription)
    (g : NotificationGateway)
    → ((m.token == "") ≡ false)
    → (is_verified l m ≡ true)
    → JsMap.get client g.user_subscriptions ≡ some s
    → s.user_id ≢ m.user_id
    → let (g', answer) = handle_subscribe l client m g in
      (answer ≡ subscribed client m)
      × ((channel : String) → is_reached m.user_id channel client g' ≡ false)
      × (is_reached s.user_id m.channel client g' ≡ true)
unfolding listens
other_user_lem l client m s g e v n ne =
    let (maps, answer) = get-handle_subscribe l client m g e v in
    (
      answer,
      λ channel. ground (arith, n, maps client, eq_refl client, eq_iff s.user_id m.user_id, ne),
      ground (
        arith,
        n,
        maps client,
        eq_refl client,
        eq_refl s.user_id,
        has-add m.channel m.channel s.channels,
        eq_refl m.channel,
      ),
    )

-- ===== src/NotificationGateway.antt =====
-- src/socket/notification.gateway.ts: the subscriptions to notices. A socket is named by its id.
pub mod Notices
pub mod Registered
pub mod Delivery
pub mod Verified
mod Examples
use starsyncbackend.Prelude.{
  String, Bool, true, false, not, List, [], ◌∷◌, Option, none, some, ◌==◌, if◌then◌else◌, get_or,
}
use starsyncbackend.Json.{Json, str, obj, field, end}
use starsyncbackend.JsMap
use starsyncbackend.JsSet
use starsyncbackend.SetMap
use starsyncbackend.Jwt.{JwtLibrary, TokenBody, verify}

pub record SubscriptionMessage : Type 0 where
  pub channel : String
  pub token : String
  pub user_id : String

pub record UserSubscription : Type 0 where
  pub user_id : String
  pub channels : List String
  pub socket : String

pub record NotificationGateway : Type 0 where
  pub user_subscriptions : List (String × UserSubscription)
  pub user_sockets : List (String × List String)

unfoldable pub start : NotificationGateway
start = record { user_subscriptions = []; user_sockets = [] }

-- What is emitted: the socket, the name of the event, and the message.
abbrev pub Emitted : Type 0
Emitted = List (String × (String × Json))

unfoldable pub handle_disconnect : String → NotificationGateway → NotificationGateway
handle_disconnect client g = elim (JsMap.get client g.user_subscriptions) [
  | none ↦ g
  | some subscription ↦ record g {
    user_sockets = SetMap.remove_member subscription.user_id client g.user_sockets;
    user_subscriptions = JsMap.delete client g.user_subscriptions;
  }
]

-- `{ type: 'error', message }`
abbrev refusal : String → String → Emitted
refusal client message =
    (client, ("error", obj (field "type" (str "error") (field "message" (str message) end)))) ∷ []

-- `a === b` of a value and a text.
abbrev pub is_text : Json → String → Bool
is_text (str a) b = a == b
is_text _ b = false

-- "Get or create subscription": what is in the maps afterwards, and the subscription.
unfoldable pub get_or_create :
    String → String → NotificationGateway → UserSubscription × NotificationGateway
get_or_create client user_id g = elim (JsMap.get client g.user_subscriptions) [
  | some subscription ↦ (subscription, g)
  | none ↦
      let subscription : UserSubscription = record {
        user_id = user_id;
        channels = [];
        socket = client;
      } in
      (
        subscription,
        record g {
          user_subscriptions = JsMap.set client subscription g.user_subscriptions;
          user_sockets = SetMap.add_member user_id client g.user_sockets;
        },
      )
]

-- `subscription.channels.add(channel)`: the map holds the same object.
unfoldable pub add_channel :
    String → String → UserSubscription → NotificationGateway → NotificationGateway
add_channel client channel subscription g = record g {
  user_subscriptions =
      JsMap.set client (record subscription { channels = JsSet.add channel subscription.channels })
        g.user_subscriptions;
}

-- `{ type: 'subscribed', channel, userId }`
abbrev pub subscribed : String → SubscriptionMessage → Emitted
subscribed client m =
    (
      client,
      (
        "subscribed",
        obj (
            field "type" (str "subscribed")
              (field "channel" (str m.channel) (field "userId" (str m.user_id) end))),
      ),
    )
    ∷ []

-- The token names the user that the message names.
unfoldable pub is_verified : JwtLibrary → SubscriptionMessage → Bool
is_verified l m = elim (verify l m.token) [
  | none ↦ false
  | some user ↦ is_text user.user_id m.user_id
]

unfoldable pub handle_subscribe :
    JwtLibrary → String → SubscriptionMessage → NotificationGateway → NotificationGateway × Emitted
unfolding is_verified get_or_create add_channel
handle_subscribe l client m g =
    if m.token == ""
    then (g, refusal client "Token is required")
    else if not (is_verified l m)
    then (g, refusal client "Invalid token or userId mismatch")
    else let (subscription, g') = get_or_create client m.user_id g in
      (add_channel client m.channel subscription g', subscribed client m)

-- `message.token || ''`
abbrev message_on : String → String → Option String → SubscriptionMessage
message_on channel user_id token = record {
  channel = channel;
  token = get_or token "";
  user_id = user_id;
}

unfoldable pub handle_subscribe_project_invitations :
    JwtLibrary
    → String
    → String
    → Option String
    → NotificationGateway
    → NotificationGateway × Emitted
unfolding handle_subscribe
handle_subscribe_project_invitations l client user_id token g =
    handle_subscribe l client (message_on "projectInvitations" user_id token) g

unfoldable pub handle_subscribe_friend_requests :
    JwtLibrary
    → String
    → String
    → Option String
    → NotificationGateway
    → NotificationGateway × Emitted
unfolding handle_subscribe
handle_subscribe_friend_requests l client user_id token g =
    handle_subscribe l client (message_on "friendRequests" user_id token) g

-- The subscription at the socket is there and has the channel.
unfoldable pub listens : String → String → NotificationGateway → Bool
listens channel socket g = elim (JsMap.get socket g.user_subscriptions) [
  | none ↦ false
  | some subscription ↦ JsSet.has channel subscription.channels
]

-- `sockets.forEach(...)`: the message goes to those that listen.
unfoldable pub emit_each : String → String → Json → NotificationGateway → List String → Emitted
unfolding listens
emit_each channel event message g [] = []
emit_each channel event message g (socket ∷ sockets) =
    if listens channel socket g
    then (socket, (event, message)) ∷ emit_each channel event message g sockets
    else emit_each channel event message g sockets

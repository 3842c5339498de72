-- ===== src/NotificationGateway/Delivery.antt =====
-- Who gets what src/socket/notification.gateway.ts sends for the other services.
use starsyncbackend.Prelude.{
  String, Bool, ◌&&◌, Option, some, List, [], ◌∷◌, ◌==◌, if◌then◌else◌, ◌≡◌, refl, arith, eq_iff,
  eq_refl, map, get_or, subst, is_some,
}
use starsyncbackend.Json.{Json, null, field, value_or}
use starsyncbackend.JsMap
use starsyncbackend.JsSet
use starsyncbackend.JsSet.{has-is_empty}
use starsyncbackend.SetMap.{contains}
use starsyncbackend.NotificationGateway.{
  NotificationGateway, UserSubscription, Emitted, listens, emit_each,
}
use starsyncbackend.NotificationGateway.Notices.{
  with_email, without_email, friend_request_message, invitation_message, send_to,
  send_friend_request_received, send_friend_request_status_changed,
  send_project_invitation_received, send_project_invitation_status_changed, all_sockets,
  emit_pattern_comment_created, emit_pattern_comment_updated, typed,
}
use starsyncbackend.NotificationGateway.Registered.{Agree, belongs}

-- What one socket gets, in order.
abbrev pub received : String → Emitted → List (String × Json)
received c [] = []
received c ((socket, message) ∷ sent) =
    if socket == c then message ∷ received c sent else received c sent

received-emit_each :
    (c channel event : String) (m : Json) (g : NotificationGateway) (sockets : List String)
    → JsSet.Unique sockets
    → received c (emit_each channel event m g sockets)
      ≡ (if JsSet.has c sockets && listens channel c g then (event, m) ∷ [] else [])
unfolding emit_each JsSet.has
received-emit_each c channel event m g [] u = refl
received-emit_each c channel event m g (s ∷ sockets) u =
    ground (arith, received-emit_each c channel event m g sockets u.1, u.0, eq_iff s c)

-- The four kinds of notices to a user.
pub data Kind : Type 0 where
  request_received request_changed invitation_received invitation_changed : Kind

abbrev pub channel_of : Kind → String
channel_of request_received = "friendRequests"
channel_of request_changed = "friendRequests"
channel_of invitation_received = "projectInvitations"
channel_of invitation_changed = "projectInvitations"

abbrev pub event_of : Kind → String
event_of request_received = "friendRequestReceived"
event_of request_changed = "friendRequestStatusChanged"
event_of invitation_received = "projectInvitationReceived"
event_of invitation_changed = "projectInvitationStatusChanged"

-- The message, or `none` where the data lacks the objects that are read.
abbrev pub message_of : Kind → (String → String) → Json → Option Json
message_of request_received to_lower = friend_request_message "friendRequestReceived" with_email
message_of request_changed to_lower =
    friend_request_message "friendRequestStatusChanged" without_email
message_of invitation_received to_lower =
    invitation_message to_lower "projectInvitationReceived" with_email
      λ invitation. field "message" (value_or (invitation "message") null)
message_of invitation_changed to_lower =
    invitation_message to_lower "projectInvitationStatusChanged" without_email
      λ invitation rest. rest

abbrev pub send : Kind → (String → String) → String → Json → NotificationGateway → Option Emitted
send request_received to_lower = send_friend_request_received
send request_changed to_lower = send_friend_request_status_changed
send invitation_received to_lower = send_project_invitation_received to_lower
send invitation_changed to_lower = send_project_invitation_status_changed to_lower

send-eq-send_to :
    (k : Kind) (to_lower : String → String) (user : String) (data' : Json) (g : NotificationGateway)
    → send k to_lower user data' g
      ≡ send_to (channel_of k) (event_of k) user (message_of k to_lower) data' g
unfolding send_friend_request_received send_friend_request_status_changed
    send_project_invitation_received send_project_invitation_status_changed
send-eq-send_to request_received to_lower user data' g = refl
send-eq-send_to request_changed to_lower user data' g = refl
send-eq-send_to invitation_received to_lower user data' g = refl
send-eq-send_to invitation_changed to_lower user data' g = refl

-- The user's own sockets that listen on the channel.
abbrev pub is_reached : String → String → String → NotificationGateway → Bool
is_reached user channel c g = belongs user (JsMap.get c g.user_subscriptions) && listens channel c g

send_to_lem :
    (channel event user : String) (message : Json → Option Json) (data' m : Json)
    (g : NotificationGateway)
    → Agree g
    → message data' ≡ some m
    → (sent : Emitted) × (send_to channel event user message data' g ≡ some sent)
      × ((c : String)
          → received c sent ≡ (if is_reached user channel c g then (event, m) ∷ [] else []))
unfolding send_to contains
send_to_lem channel event user message data' m g a h =
    go (get_or (JsMap.get user g.user_sockets) []) refl
  where
    go :
        (sockets : List String)
        → get_or (JsMap.get user g.user_sockets) [] ≡ sockets
        → (sent : Emitted) × (send_to channel event user message data' g ≡ some sent)
          × ((c : String)
              → received c sent ≡ (if is_reached user channel c g then (event, m) ∷ [] else []))
    go [] e =
        ([], rw (e, send_to) refl, λ c. ground (arith, e, a.same user c, has-is_empty c [] refl))
    go (s ∷ sockets) e = (
      emit_each channel event m g (s ∷ sockets),
      rw (e, send_to) (rw h refl),
      λ c. ground (
        arith,
        e,
        a.same user c,
        received-emit_each c channel event m g (s ∷ sockets)
            (subst (λ xs. JsSet.Unique xs) e (a.proper.unique user)),
      ),
    )

-- For each of the four kinds of notices to a user, where the maps of the gateway agree and the data
-- has the objects that are read: the call returns, and every socket whose subscription is the
-- user's and has the notice's channel gets exactly one message, the one that is made of the data;
-- no other socket gets anything.
pub send_lem :
    (k : Kind) (to_lower : String → String) (user : String) (data' m : Json)
    (g : NotificationGateway)
    → Agree g
    → message_of k to_lower data' ≡ some m
    → (sent : Emitted) × (send k to_lower user data' g ≡ some sent)
      × ((c : String)
          → received c sent
            ≡ (if is_reached user (channel_of k) c g then (event_of k, m) ∷ [] else []))
send_lem k to_lower user data' m g a h =
    rw (send-eq-send_to k to_lower user data' g)
      (send_to_lem (channel_of k) (event_of k) user (message_of k to_lower) data' m g a h)

-- Every entry holds its own socket.
Own : List (String × UserSubscription) → Type 0
Own m = (c : String) (s : UserSubscription) → JsMap.get c m ≡ some s → s.socket ≡ c

Own-rest :
    (k : String) (s : UserSubscription) (m : List (String × UserSubscription))
    → JsMap.Distinct ((k, s) ∷ m)
    → Own ((k, s) ∷ m)
    → Own m
unfolding Own JsMap.get
Own-rest k s m d o c t h = ground (arith, d.0, h, o c t, eq_iff k c)

has-sockets :
    (c : String) (m : List (String × UserSubscription))
    → JsMap.Distinct m
    → Own m
    → JsSet.has c (map (λ entry. entry.1.socket) m) ≡ is_some (JsMap.get c m)
unfolding JsMap.get JsSet.has Own
has-sockets c [] d o = refl
has-sockets c ((k, s) ∷ m) d o =
    ground (arith, has-sockets c m d.1 (Own-rest k s m d o), o k s, eq_refl k, eq_iff k c)

sockets-Unique :
    (m : List (String × UserSubscription))
    → JsMap.Distinct m
    → Own m
    → JsSet.Unique (map (λ entry. entry.1.socket) m)
unfolding JsMap.get Own
sockets-Unique [] d o = tt
sockets-Unique ((k, s) ∷ m) d o =
    let o' = Own-rest k s m d o in
    (ground (arith, has-sockets s.socket m d.1 o', o k s, eq_refl k, d.0), sockets-Unique m d.1 o')

received-all :
    (c channel event : String) (m : Json) (g : NotificationGateway)
    → Agree g
    → received c (emit_each channel event m g (all_sockets g))
      ≡ (if listens channel c g then (event, m) ∷ [] else [])
unfolding Own listens
received-all c channel event m g a = ground (
  arith,
  received-emit_each c channel event m g (all_sockets g)
      (sockets-Unique g.user_subscriptions a.distinct a.own),
  has-sockets c g.user_subscriptions a.distinct a.own,
)

-- A new or changed comment goes once to every socket that listens, whatever the project.
pub emit_pattern_comment_lem :
    (project c : String) (comment : Json) (g : NotificationGateway)
    → Agree g
    → let heard = listens "projectInvitations" c g in
      (received c (emit_pattern_comment_created project comment g) ≡ (
        if heard
        then ("patternCommentCreated", typed "patternCommentCreated" comment) ∷ []
        else []))
      × (received c (emit_pattern_comment_updated project comment g) ≡ (
          if heard
          then ("patternCommentUpdated", typed "patternCommentUpdated" comment) ∷ []
          else []))
      × ((other : String)
          → emit_pattern_comment_created other comment g
            ≡ emit_pattern_comment_created project comment g)
unfolding emit_pattern_comment_created emit_pattern_comment_updated
emit_pattern_comment_lem project c comment g a = (
  received-all c "projectInvitations" "patternCommentCreated" _ g a,
  received-all c "projectInvitations" "patternCommentUpdated" _ g a,
  λ other. refl,
)

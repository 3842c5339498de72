-- ===== src/NotificationGateway/Examples.antt =====
-- Runs of src/socket/notification.gateway.ts: a token is the name of its user.
use starsyncbackend.Prelude.{
  String, true, false, Option, none, some, List, [], ◌∷◌, ◌==◌, ◌≡◌, refl, if◌then◌else◌, differs,
}
use starsyncbackend.Json.{Json, null, str, obj, field, end, members, find_field}
use starsyncbackend.JsMap
use starsyncbackend.JsSet
use starsyncbackend.Jwt.{JwtLibrary, verify}
use starsyncbackend.NotificationGateway.{
  NotificationGateway, UserSubscription, SubscriptionMessage, Emitted, start, handle_subscribe,
  handle_subscribe_project_invitations, handle_subscribe_friend_requests, is_verified, subscribed,
  get_or_create, add_channel, handle_disconnect, listens,
}
use starsyncbackend.NotificationGateway.Registered.{
  Agree, Call, subscribe_friend_requests, subscribe_project_invitations, disconnect, run, step,
  run-Agree,
}
use starsyncbackend.NotificationGateway.Delivery.{
  received, request_received, send, message_of, is_reached, send_lem,
}
use starsyncbackend.NotificationGateway.Verified.{proves, any, reached-Verified, other_user_lem}

abbrev library : JwtLibrary
library = record {
  sign = λ payload expires_in. "token";
  verify = λ token. some (obj (field "user_id" (str token) end));
}

abbrev calls : List Call
calls =
    subscribe_friend_requests "c1" "alice" (some "alice")
    ∷ subscribe_project_invitations "c2" "alice" (some "alice")
    ∷ subscribe_friend_requests "c3" "bob" (some "alice")
    ∷ disconnect "c2"
    ∷ []

gateway : NotificationGateway
gateway = run library calls start

run-Agree_example : Agree (run library calls start)
run-Agree_example = run-Agree library calls

abbrev bob : Json
bob = obj (field "id" (str "bob") (field "username" (str "bob") (field "email" (str "b@x") end)))

abbrev request : Json
request = obj (
    field "id" (str "r")
      (field "sender" bob (field "receiver" bob (field "status" (str "pending") end))))

abbrev notice : Option Json → Json
notice none = null
notice (some m) = m

abbrev message : Json
message = notice (message_of request_received (λ t. t) request)

send_lem_example :
    (sent : Emitted) × (send request_received (λ t. t) "alice" request (run library calls start)
      ≡ some sent)
    × ((c : String)
        → received c sent ≡ (
            if is_reached "alice" "friendRequests" c (run library calls start)
            then ("friendRequestReceived", message) ∷ []
            else []))
unfolding members find_field
send_lem_example =
    send_lem request_received (λ t. t) "alice" request message (run library calls start)
      (run-Agree library calls) refl

reached-Verified_example :
    (any (proves library "c1" (λ m. m.user_id == "alice")) calls ≡ true)
    × (any (proves library "c1" (λ m. m.channel == "friendRequests")) calls ≡ true)
unfolding members find_field run step start listens handle_subscribe
    handle_subscribe_project_invitations handle_subscribe_friend_requests is_verified verify
    get_or_create add_channel handle_disconnect JsMap.get JsMap.set JsMap.delete JsSet.has JsSet.add
    JsSet.push
reached-Verified_example = reached-Verified library "alice" "friendRequests" "c1" calls refl

abbrev alice_listens : UserSubscription
alice_listens = record { user_id = "alice"; channels = []; socket = "c1" }

abbrev shared_socket : NotificationGateway
shared_socket = record {
  user_subscriptions = ("c1", alice_listens) ∷ [];
  user_sockets = ("alice", "c1" ∷ []) ∷ [];
}

abbrev bob_asks : SubscriptionMessage
bob_asks = record { channel = "friendRequests"; token = "bob"; user_id = "bob" }

other_user_lem_example :
    let (g', answer) = handle_subscribe library "c1" bob_asks shared_socket in
    (answer ≡ subscribed "c1" bob_asks)
    × ((channel : String) → is_reached "bob" channel "c1" g' ≡ false)
    × (is_reached "alice" "friendRequests" "c1" g' ≡ true)
unfolding members find_field is_verified verify JsMap.get
other_user_lem_example =
    other_user_lem library "c1" bob_asks alice_listens shared_socket refl refl refl
      (differs "alice" "bob" refl)

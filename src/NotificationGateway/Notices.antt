-- ===== src/NotificationGateway/Notices.antt =====
-- The messages that src/socket/notification.gateway.ts sends on behalf of the other services.
use starsyncbackend.Prelude.{String, List, [], ◌∷◌, Option, none, some, get_or, map}
use starsyncbackend.Json.{Json, null, str, obj, field, Fields, end, members, value_or}
use starsyncbackend.JsMap
use starsyncbackend.NotificationGateway.{NotificationGateway, Emitted, emit_each}

-- Reading on where a value has properties; where it has none the code throws.
infixl 5 ◌>>=◌
abbrev ◌>>=◌ : {A B : Type 0} → Option A → (A → Option B) → Option B
none >>= f = none
some a >>= f = f a

-- `text.toLowerCase()` of a value; of one that is no text it throws.
abbrev lowered : (String → String) → Json → Option String
lowered to_lower (str s) = some (to_lower s)
lowered to_lower _ = none

abbrev role_map : List (String × String)
role_map =
    ("owner", "Owner")
    ∷ ("editor", "Editor")
    ∷ ("viewer", "Viewer")
    ∷ ("commenter", "Commenter")
    ∷ []

-- `formatRole`, with `toLowerCase` as a parameter.
unfoldable pub format_role : (String → String) → Json → Option Json
format_role to_lower role = do
  key ← lowered to_lower role
  some (elim (JsMap.get key role_map) [ none ↦ role | some name ↦ str name ])

-- `{ id, username, email }` and `{ id, username }` of a user.
abbrev pub with_email : (String → Json) → Json
with_email u =
    obj (field "id" (u "id") (field "username" (u "username") (field "email" (u "email") end)))

abbrev pub without_email : (String → Json) → Json
without_email u = obj (field "id" (u "id") (field "username" (u "username") end))

-- The fields at the end of each message.
abbrev dates : (String → Json) → Fields
dates data' = field "createdAt" (data' "created_at") (field "updatedAt" (data' "updated_at") end)

-- `{ type, data }`
abbrev pub typed : String → Json → Json
typed type data' = obj (field "type" (str type) (field "data" data' end))

-- The message on a friend request, with the two users as `person` shows them.
abbrev pub friend_request_message : String → ((String → Json) → Json) → Json → Option Json
friend_request_message type person data' = do
  request ← members data'
  sender ← members (request "sender")
  receiver ← members (request "receiver")
  some (
      typed type (
        obj (
          field "id" (request "id") (
            field "sender" (person sender) (
              field "receiver" (person receiver)
                (field "status" (request "status") (dates request)))))))

-- The message on an invitation; `extra` is put in before the status.
abbrev pub invitation_message :
    (String → String)
    → String
    → ((String → Json) → Json)
    → ((String → Json) → Fields → Fields)
    → Json
    → Option Json
invitation_message to_lower type person extra data' = do
  invitation ← members data'
  inviter ← members (invitation "inviter")
  invitee ← members (invitation "invitee")
  role ← format_role to_lower (invitation "role")
  some (
      typed type (
        obj (
          field "id" (invitation "id") (
            field "projectId" (invitation "projectId") (
              field "projectName" (invitation "projectName") (
                field "inviter" (person inviter) (
                  field "invitee" (person invitee) (
                    field "role" role (
                      extra invitation
                        (field "status" (invitation "status") (dates invitation)))))))))))

-- What the four methods that send to a user have in common: nothing where the user has no socket;
-- else the message, which may throw, to those of the user's sockets that listen.
unfoldable pub send_to :
    String → String → String → (Json → Option Json) → Json → NotificationGateway → Option Emitted
send_to channel event user_id message data' g =
    elim (get_or (JsMap.get user_id g.user_sockets) []) [
      | [] ↦ some []
      | socket ∷ sockets ↦ do
        m ← message data'
        some (emit_each channel event m g (socket ∷ sockets))
    ]

unfoldable pub send_friend_request_received : String → Json → NotificationGateway → Option Emitted
unfolding send_to
send_friend_request_received user_id data' g =
    send_to "friendRequests" "friendRequestReceived" user_id
      (friend_request_message "friendRequestReceived" with_email) data' g

unfoldable pub send_friend_request_status_changed :
    String → Json → NotificationGateway → Option Emitted
unfolding send_to
send_friend_request_status_changed user_id data' g =
    send_to "friendRequests" "friendRequestStatusChanged" user_id
      (friend_request_message "friendRequestStatusChanged" without_email) data' g

unfoldable pub send_project_invitation_received :
    (String → String) → String → Json → NotificationGateway → Option Emitted
unfolding send_to format_role
send_project_invitation_received to_lower user_id data' g =
    send_to "projectInvitations" "projectInvitationReceived" user_id
      (invitation_message to_lower "projectInvitationReceived" with_email
        λ invitation. field "message" (value_or (invitation "message") null))
      data' g

unfoldable pub send_project_invitation_status_changed :
    (String → String) → String → Json → NotificationGateway → Option Emitted
unfolding send_to format_role
send_project_invitation_status_changed to_lower user_id data' g =
    send_to "projectInvitations" "projectInvitationStatusChanged" user_id
      (invitation_message to_lower "projectInvitationStatusChanged" without_email
        λ invitation rest. rest)
      data' g

-- `Array.from(this.userSubscriptions.values()).map((sub) => sub.socket)`
abbrev pub all_sockets : NotificationGateway → List String
all_sockets g = map (λ entry. entry.1.socket) g.user_subscriptions

-- The project only stands in the log.
unfoldable pub emit_pattern_comment_created : String → Json → NotificationGateway → Emitted
emit_pattern_comment_created project_id comment g =
    emit_each "projectInvitations" "patternCommentCreated" (typed "patternCommentCreated" comment) g
      (all_sockets g)

unfoldable pub emit_pattern_comment_deleted : String → String → NotificationGateway → Emitted
emit_pattern_comment_deleted project_id comment_id g =
    emit_each "projectInvitations" "patternCommentDeleted"
      (typed "patternCommentDeleted"
        (obj (field "commentId" (str comment_id) (field "projectId" (str project_id) end))))
      g (all_sockets g)

unfoldable pub emit_pattern_comment_updated : String → Json → NotificationGateway → Emitted
emit_pattern_comment_updated project_id comment g =
    emit_each "projectInvitations" "patternCommentUpdated" (typed "patternCommentUpdated" comment) g
      (all_sockets g)

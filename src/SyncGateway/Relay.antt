-- ===== src/SyncGateway/Relay.antt =====
-- The handlers of src/socket/sync.gateway.ts that pass an event on to the project's room: cursor,
-- playback, tempo, automation, markers, plugins, undo and redo. None of them changes the state.
pub mod Recipients
use starsyncbackend.Prelude.{
  String, Bool, false, some, none, not, ◌||◌, List, [], ◌∷◌, if◌then◌else◌,
}
use starsyncbackend.Prelude.Int.{pos}
use starsyncbackend.Json.{
  Json, Fields, bool, num, str, end, field, is_truthy, is_undefined, value_or, nullish_or,
  event_data, obj, event_object,
}
use starsyncbackend.SyncGateway.{SyncGateway, Env, Sent, try_payload, relay_room, payload_of}

-- The fields that an event copies from its payload.
abbrev copied : (String → Json) → List String → Fields → Fields
copied q [] rest = rest
copied q (k ∷ ks) rest = field k (q k) (copied q ks rest)

handle_cursor_position : Env → String → Json → SyncGateway → Sent
handle_cursor_position e client data' g = try_payload e data' [] λ q.
    if not (is_truthy (q "projectId"))
      || not (is_truthy (q "userId"))
      || not (is_truthy (q "position"))
    then []
    else relay_room e client (q "projectId")
        (event_data "cursorPosition" (
          field "userId" (q "userId") (
            field "username" (value_or (q "username") (q "userId"))
              (copied q ("position" ∷ "projectId" ∷ []) end))))
        g

handle_playback_state : Env → String → Json → SyncGateway → Sent
handle_playback_state e client data' g = try_payload e data' [] λ q.
    if not (is_truthy (q "projectId")) || not (is_truthy (q "userId"))
    then []
    else relay_room e client (q "projectId")
        (event_data "playbackState" (
          field "userId" (q "userId") (
            field "username" (value_or (q "username") (q "userId")) (
              field "isPlaying" (nullish_or (q "isPlaying") (bool false)) (
                field "currentTime" (nullish_or (q "currentTime") (num (pos 0))) (
                  field "action"
                    (value_or (q "action")
                      (if is_truthy (q "isPlaying") then str "play" else str "pause"))
                    (field "projectId" (q "projectId") end)))))))
        g

handle_tempo_change : Env → String → Json → SyncGateway → Sent
handle_tempo_change e client data' g = try_payload e data' [] λ q.
    if not (is_truthy (q "projectId")) || not (is_truthy (q "userId")) || is_undefined (q "tempo")
    then []
    else relay_room e client (q "projectId")
        (event_data "tempoChange" (copied q ("userId" ∷ "tempo" ∷ "projectId" ∷ []) end)) g

abbrev timestamp : Env → Fields
timestamp e = field "timestamp" (num (pos e.now)) end

handle_tempo_automation : Env → String → Json → SyncGateway → Sent
handle_tempo_automation e client data' g = try_payload e data' [] λ q.
    if not (is_truthy (q "projectId")) || not (is_truthy (q "userId"))
    then []
    else relay_room e client (q "projectId")
        (event_data "tempoAutomation" (
          copied q
            ("userId" ∷ "projectId" ∷ "tempoMap" ∷ "automationData" ∷ "pointId" ∷ "pointData"
              ∷ "newTime" ∷ "newValue" ∷ [])
            (timestamp e)))
        g

-- The event is one of the six of the automation lanes and points.
handle_automation_event : String → Env → String → Json → SyncGateway → Sent
handle_automation_event event e client data' g = try_payload e data' [] λ q.
    if not (is_truthy (q "projectId")) || not (is_truthy (q "userId"))
    then []
    else relay_room e client (q "projectId")
        (event_data event (
          copied q
            ("userId" ∷ "projectId" ∷ "laneId" ∷ "laneData" ∷ "pointId" ∷ "pointData" ∷ "newTime"
              ∷ "newValue" ∷ [])
            (timestamp e)))
        g

handle_marker_added : Env → String → Json → SyncGateway → Sent
handle_marker_added e client data' g = try_payload e data' [] λ q.
    if not (is_truthy (q "projectId"))
      || not (is_truthy (q "userId"))
      || not (is_truthy (q "marker"))
    then []
    else relay_room e client (q "projectId")
        (event_data "markerAdded" (copied q ("projectId" ∷ "userId" ∷ "marker" ∷ []) end)) g

handle_marker_updated : Env → String → Json → SyncGateway → Sent
handle_marker_updated e client data' g = try_payload e data' [] λ q.
    if not (is_truthy (q "projectId"))
      || not (is_truthy (q "userId"))
      || is_undefined (q "markerIndex")
      || not (is_truthy (q "marker"))
    then []
    else relay_room e client (q "projectId")
        (event_data "markerUpdated"
          (copied q ("projectId" ∷ "userId" ∷ "markerIndex" ∷ "marker" ∷ []) end))
        g

handle_marker_deleted : Env → String → Json → SyncGateway → Sent
handle_marker_deleted e client data' g = try_payload e data' [] λ q.
    if not (is_truthy (q "projectId"))
      || not (is_truthy (q "userId"))
      || is_undefined (q "markerIndex")
    then []
    else relay_room e client (q "projectId")
        (event_data "markerDeleted" (copied q ("projectId" ∷ "userId" ∷ "markerIndex" ∷ []) end)) g

-- `handleUndo` and `handleRedo` differ in the event alone.
abbrev relay_action : String → Env → String → Json → SyncGateway → Sent
relay_action event e client data' g = try_payload e data' [] λ q.
    if not (is_truthy (q "projectId")) || not (is_truthy (q "userId"))
    then []
    else relay_room e client (q "projectId")
        (event_data event (
          copied q
            ("projectId" ∷ "userId" ∷ "actionId" ∷ "actionType" ∷ "actionData" ∷ "reverseData" ∷ [])
            end))
        g

handle_undo : Env → String → Json → SyncGateway → Sent
handle_undo = relay_action "undo"

handle_redo : Env → String → Json → SyncGateway → Sent
handle_redo = relay_action "redo"

-- The payload is passed on whole.
handle_plugin : Env → String → Json → SyncGateway → Sent
handle_plugin e client data' g = elim (payload_of e data') [
  | none ↦ []
  | some p ↦ try_payload e data' [] λ q.
      if not (is_truthy (q "projectId"))
      then []
      else relay_room e client (q "projectId") (event_object "plugin" (field "data" p end)) g
]

pub data RelayEvent : Type 0 where
  cursor_position playback_state tempo_change tempo_automation : RelayEvent
  automation : String → RelayEvent
  marker_added marker_updated marker_deleted undo redo plugin : RelayEvent

-- The cases of `handleMessage` for these events.
pub handle_relay : RelayEvent → Env → String → Json → SyncGateway → Sent
unfolding handle_cursor_position handle_playback_state handle_tempo_change handle_tempo_automation
    handle_automation_event handle_marker_added handle_marker_updated handle_marker_deleted
    handle_undo handle_redo handle_plugin
handle_relay cursor_position = handle_cursor_position
handle_relay playback_state = handle_playback_state
handle_relay tempo_change = handle_tempo_change
handle_relay tempo_automation = handle_tempo_automation
handle_relay (automation event) = handle_automation_event event
handle_relay marker_added = handle_marker_added
handle_relay marker_updated = handle_marker_updated
handle_relay marker_deleted = handle_marker_deleted
handle_relay undo = handle_undo
handle_relay redo = handle_redo
handle_relay plugin = handle_plugin

-- ===== src/SyncGateway/Relay/Recipients.antt =====
-- Who gets an event that src/socket/sync.gateway.ts passes on, and what.
use starsyncbackend.Prelude.{
  String, Bool, true, false, not, ◌&&◌, List, [], ◌∷◌, if◌then◌else◌, ◌≡◌, refl, ◌==◌, filter, map,
  All, none, some, get_or, Option-cases, Bool-cases, inl, inr, arith,
}
use starsyncbackend.JsMap
use starsyncbackend.Json.{
  Json, members, find_field, is_truthy, is_undefined, event_object, field, end,
}
use starsyncbackend.SyncGateway.{
  SyncGateway, Env, Sent, try_payload, relay_room, payload_of, key_of, send_others,
}
use starsyncbackend.SyncGateway.Relay.{
  RelayEvent, cursor_position, playback_state, tempo_change, tempo_automation, automation,
  marker_added, marker_updated, marker_deleted, undo, redo, plugin, handle_relay,
}

-- The open connections of a room but the sender's, in order.
abbrev pub others : Env → String → List String → List String
others e client = filter (λ c. not (c == client) && e.is_open c)

-- The name that an event has on the wire.
abbrev pub name_of : RelayEvent → String
name_of cursor_position = "cursorPosition"
name_of playback_state = "playbackState"
name_of tempo_change = "tempoChange"
name_of tempo_automation = "tempoAutomation"
name_of (automation event) = event
name_of marker_added = "markerAdded"
name_of marker_updated = "markerUpdated"
name_of marker_deleted = "markerDeleted"
name_of undo = "undo"
name_of redo = "redo"
name_of plugin = "plugin"

-- The fields that must have a value that counts as true, and those that must be defined.
abbrev pub required : RelayEvent → List String
required cursor_position = "projectId" ∷ "userId" ∷ "position" ∷ []
required marker_added = "projectId" ∷ "userId" ∷ "marker" ∷ []
required marker_updated = "projectId" ∷ "userId" ∷ "marker" ∷ []
required plugin = "projectId" ∷ []
required _ = "projectId" ∷ "userId" ∷ []

abbrev pub defined : RelayEvent → List String
defined tempo_change = "tempo" ∷ []
defined marker_updated = "markerIndex" ∷ []
defined marker_deleted = "markerIndex" ∷ []
defined _ = []

-- The fields that are passed on as they came.
abbrev pub carried : RelayEvent → List String
carried cursor_position = "userId" ∷ "position" ∷ "projectId" ∷ []
carried playback_state = "userId" ∷ "projectId" ∷ []
carried tempo_change = "userId" ∷ "tempo" ∷ "projectId" ∷ []
carried tempo_automation =
    "userId" ∷ "projectId" ∷ "tempoMap" ∷ "automationData" ∷ "pointId" ∷ "pointData" ∷ "newTime"
    ∷ "newValue" ∷ []
carried (automation event) =
    "userId" ∷ "projectId" ∷ "laneId" ∷ "laneData" ∷ "pointId" ∷ "pointData" ∷ "newTime"
    ∷ "newValue" ∷ []
carried marker_added = "projectId" ∷ "userId" ∷ "marker" ∷ []
carried marker_updated = "projectId" ∷ "userId" ∷ "markerIndex" ∷ "marker" ∷ []
carried marker_deleted = "projectId" ∷ "userId" ∷ "markerIndex" ∷ []
carried plugin = []
carried _ = "projectId" ∷ "userId" ∷ "actionId" ∷ "actionType" ∷ "actionData" ∷ "reverseData" ∷ []

abbrev pub all_of : (Json → Bool) → (String → Json) → List String → Bool
all_of test q [] = true
all_of test q (k ∷ ks) = test (q k) && all_of test q ks

abbrev pub is_complete : RelayEvent → (String → Json) → Bool
is_complete event q =
    all_of is_truthy q (required event) && all_of (λ v. not (is_undefined v)) q (defined event)

-- The data of a message carry the fields of the payload; those of a plugin's event are the payload.
abbrev pub Carries : RelayEvent → Json → (String → Json) → Json → Type 0
Carries plugin p q content = content ≡ p
Carries event p q content =
    (get : String → Json) × (members content ≡ some get) × All (λ k. get k ≡ q k) (carried event)

-- What is sent: nothing where the payload does not read or is not complete; otherwise one message to
-- each of the others in the room that the payload names, of the event's name and with its fields.
pub data Relayed (event : RelayEvent) (e : Env) (client : String) (data' : Json) (g : SyncGateway)
    (sent : Sent) : Type 0 where
  no_payload : payload_of e data' ≡ none → sent ≡ [] → Relayed event e client data' g sent
  no_members :
      (p : Json)
      → payload_of e data' ≡ some p
      → members p ≡ none
      → sent ≡ []
      → Relayed event e client data' g sent
  incomplete :
      (p : Json) (q : String → Json)
      → payload_of e data' ≡ some p
      → members p ≡ some q
      → is_complete event q ≡ false
      → sent ≡ []
      → Relayed event e client data' g sent
  to_room :
      (p : Json) (q : String → Json) (content : Json)
      → payload_of e data' ≡ some p
      → members p ≡ some q
      → is_complete event q ≡ true
      → Carries event p q content
      → sent
        ≡ map
            (λ c. (c, event_object (name_of event) (field "data" content end)))
            (others e client (get_or (JsMap.get (key_of e (q "projectId")) g.rooms) []))
      → Relayed event e client data' g sent

send_others-eq-map :
    (e : Env) (client : String) (message : Json) (room : List String)
    → send_others e client message room ≡ map (λ c. (c, message)) (others e client room)
unfolding send_others
send_others-eq-map e client message [] = refl
send_others-eq-map e client message (c ∷ cs) =
    ground (arith, send_others-eq-map e client message cs)

module _ (event : RelayEvent) (e : Env) (client : String) (data' : Json) (g : SyncGateway) where
  relay_room-map :
      (project message : Json)
      → relay_room e client project message g
        ≡ map
            (λ c. (c, message))
            (others e client (get_or (JsMap.get (key_of e project) g.rooms) []))
  unfolding relay_room
  relay_room-map project message = elim (Option-cases (JsMap.get (key_of e project) g.rooms)) [
    | inl n ↦ rw (n, relay_room) refl
    | inr (room, r) ↦ rw (r, relay_room) (send_others-eq-map e client message room)
  ]

  -- A `try` block that returns at a test, and passes the event on otherwise.
  Relayed-try_payload :
      (test : (String → Json) → Bool) (content : (String → Json) → Json)
      → ((q : String → Json) → test q ≡ not (is_complete event q))
      → ((p : Json) (q : String → Json)
          → payload_of e data' ≡ some p
          → Carries event p q (content q))
      → Relayed event e client data' g (
          try_payload e data' [] λ q.
            if test q
            then []
            else relay_room e client
                (q "projectId")
                (event_object (name_of event) (field "data" (content q) end))
                g)
  Relayed-try_payload test content same carries = elim (Option-cases (payload_of e data')) [
    | inl n ↦ no_payload n (rw (n, try_payload) refl)
    | inr (p, h) ↦ elim (Option-cases (members p)) [
      | inl n ↦ no_members p h n (rw (h, try_payload) (rw n refl))
      | inr (q, m) ↦ elim (Bool-cases (is_complete event q)) [
        | inr t ↦ incomplete p q h m t (rw (h, try_payload) (rw m (ground (arith, same q, t))))
        | inl t ↦
            to_room p q (content q) h m t (carries p q h)
              (rw (h, try_payload) (rw m (rw (same q, t) (relay_room-map (q "projectId") _))))
      ]
    ]
  ]

plugin_lem :
    (e : Env) (client : String) (data' : Json) (g : SyncGateway) (p : Json)
    → payload_of e data' ≡ some p
    → handle_relay plugin e client data' g
      ≡ try_payload e data' [] (λ q.
        if not (is_truthy (q "projectId"))
        then []
        else relay_room e client (q "projectId") (event_object "plugin" (field "data" p end)) g)
unfolding handle_relay
plugin_lem e client data' g p h = ground (arith, h)

-- For every event of the eleven kinds that are passed on (cursor, playback, tempo, automation,
-- markers, undo, redo, plugin): nothing is sent where the payload does not read, has no properties,
-- or lacks a field that its kind requires; otherwise each open connection in the room that the
-- payload names but the sender's, in the room's order, gets one message, of the kind's name, which
-- carries the kind's fields as they came, or for a plugin the payload whole.
pub handle_relay-Relayed :
    (event : RelayEvent) (e : Env) (client : String) (data' : Json) (g : SyncGateway)
    → Relayed event e client data' g (handle_relay event e client data' g)
unfolding handle_relay find_field members
handle_relay-Relayed plugin e client data' g = elim (Option-cases (payload_of e data')) [
  | inl n ↦ no_payload n (ground (arith, n))
  | inr (p, h) ↦ rw (plugin_lem e client data' g p h) (
      Relayed-try_payload plugin e client data' g _ (λ q. p) (λ q. ground arith)
        (λ p' q k. ground (arith, h, k)))
]
handle_relay-Relayed cursor_position e client data' g =
    Relayed-try_payload cursor_position e client data' g _ _ (λ q. ground arith)
      (λ p q h. (_, refl, (refl, (refl, (refl, tt)))))
handle_relay-Relayed playback_state e client data' g =
    Relayed-try_payload playback_state e client data' g _ _ (λ q. ground arith)
      (λ p q h. (_, refl, (refl, (refl, tt))))
handle_relay-Relayed tempo_change e client data' g =
    Relayed-try_payload tempo_change e client data' g _ _ (λ q. ground arith)
      (λ p q h. (_, refl, (refl, (refl, (refl, tt)))))
handle_relay-Relayed tempo_automation e client data' g =
    Relayed-try_payload tempo_automation e client data' g _ _ (λ q. ground arith)
      (λ p q h. (_, refl, (refl, (refl, (refl, (refl, (refl, (refl, (refl, (refl, tt))))))))))
handle_relay-Relayed (automation event) e client data' g =
    Relayed-try_payload (automation event) e client data' g _ _ (λ q. ground arith)
      (λ p q h. (_, refl, (refl, (refl, (refl, (refl, (refl, (refl, (refl, (refl, tt))))))))))
handle_relay-Relayed marker_added e client data' g =
    Relayed-try_payload marker_added e client data' g _ _ (λ q. ground arith)
      (λ p q h. (_, refl, (refl, (refl, (refl, tt)))))
handle_relay-Relayed marker_updated e client data' g =
    Relayed-try_payload marker_updated e client data' g _ _ (λ q. ground arith)
      (λ p q h. (_, refl, (refl, (refl, (refl, (refl, tt))))))
handle_relay-Relayed marker_deleted e client data' g =
    Relayed-try_payload marker_deleted e client data' g _ _ (λ q. ground arith)
      (λ p q h. (_, refl, (refl, (refl, (refl, tt)))))
handle_relay-Relayed undo e client data' g =
    Relayed-try_payload undo e client data' g _ _ (λ q. ground arith)
      (λ p q h. (_, refl, (refl, (refl, (refl, (refl, (refl, (refl, tt))))))))
handle_relay-Relayed redo e client data' g =
    Relayed-try_payload redo e client data' g _ _ (λ q. ground arith)
      (λ p q h. (_, refl, (refl, (refl, (refl, (refl, (refl, (refl, tt))))))))

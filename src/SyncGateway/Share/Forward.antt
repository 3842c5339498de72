-- ===== src/SyncGateway/Share/Forward.antt =====
-- `forwardShareEvent` of src/socket/sync.gateway.ts: delivery, or the recipient's queue.
use starsyncbackend.Prelude.{
  String, Bool, true, false, List, [], ◌∷◌, ◌++◌, ◌==◌, if◌then◌else◌, ◌≡◌, ◌≢◌, ◌⊎◌, refl, arith,
  eq_iff, inl, inr,
}
use starsyncbackend.Json.{Json, end, field, event_object}
use starsyncbackend.JsMap.{get-set}
use starsyncbackend.JsSet
use starsyncbackend.SetMap.{members_of}
use starsyncbackend.SyncGateway.{SyncGateway, Env, Sent, ShareQueueItem, ShareQueueType, send_all}
use starsyncbackend.SyncGateway.Share.{event_of, forward_share_event, queue_share_message}
use starsyncbackend.SyncGateway.Share.Delivery.{pending}

send_all-nil :
    (e : Env) (message : Json) (clients : List String) (c : String)
    → send_all e message clients ≡ []
    → JsSet.has c clients ≡ true
    → e.is_open c ≡ false
unfolding send_all JsSet.has
send_all-nil e message [] c h i = cc
send_all-nil e message (x ∷ xs) c h i = ground (arith, send_all-nil e message xs c, eq_iff x c)

module _ (e : Env) (type : ShareQueueType) (recipient : String) (payload : Json)
    (g : SyncGateway) where
  abbrev outcome : SyncGateway × Sent × Bool
  outcome = forward_share_event e type recipient payload g

  abbrev clients : List String
  clients = members_of recipient g.user_connections

  abbrev message : Json
  message = event_object (event_of type) (field "data" payload end)

  abbrev item : ShareQueueItem
  item = record { type = type; payload = payload; queued_at = e.now }

  -- Forwarding a shared project answers true when it sent the payload to every open connection of
  -- the recipient, of which there is one, and then the state is as before; it answers false when
  -- the recipient has no open connection: then nothing is sent, the payload stands last in the
  -- recipient's queue, and the other queues, the rooms and the connections are as before.
  pub forward_share_event_lem :
      ((outcome.2 ≡ true)
        × (outcome.0 ≡ g)
        × (outcome.1 ≡ send_all e message clients)
        × (outcome.1 ≢ []))
      ⊎ ((outcome.2 ≡ false)
          × (outcome.1 ≡ [])
          × ((c : String) → JsSet.has c clients ≡ true → e.is_open c ≡ false)
          × ((k : String)
              → pending k outcome.0
                ≡ (if recipient == k then pending k g ++ item ∷ [] else pending k g))
          × (outcome.0.rooms ≡ g.rooms)
          × (outcome.0.user_connections ≡ g.user_connections))
  unfolding forward_share_event queue_share_message
  forward_share_event_lem = go (send_all e message clients) refl
    where
      go :
          (sent : Sent)
          → send_all e message clients ≡ sent
          → ((outcome.2 ≡ true)
              × (outcome.0 ≡ g)
              × (outcome.1 ≡ send_all e message clients)
              × (outcome.1 ≢ []))
            ⊎ ((outcome.2 ≡ false)
                × (outcome.1 ≡ [])
                × ((c : String) → JsSet.has c clients ≡ true → e.is_open c ≡ false)
                × ((k : String)
                    → pending k outcome.0
                      ≡ (if recipient == k then pending k g ++ item ∷ [] else pending k g))
                × (outcome.0.rooms ≡ g.rooms)
                × (outcome.0.user_connections ≡ g.user_connections))
      go [] h = inr (
        ground (arith, h),
        ground (arith, h),
        λ c i. send_all-nil e message clients c h i,
        λ k. ground (
          arith,
          h,
          eq_iff recipient k,
          get-set recipient k (pending recipient g ++ item ∷ []) g.pending_messages,
        ),
        ground (arith, h),
        ground (arith, h),
      )
      go (s ∷ sent) h =
          inl (ground (arith, h), ground (arith, h), ground (arith, h), ground (arith, h))

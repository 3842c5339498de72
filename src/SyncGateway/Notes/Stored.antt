-- ===== src/SyncGateway/Notes/Stored.antt =====
-- What `processMessage` does to the store, alone and interleaved with another of its kind.
use starsyncbackend.Prelude.{
  String, Bool, true, false, List, [], ◌∷◌, ◌++◌, Option, none, some, ◌≡◌, ◌≢◌, refl, sym, ◌∙◌, ap,
  arith, get_or, subst,
}
use starsyncbackend.JsMap
use starsyncbackend.Json.{Json, str}
use starsyncbackend.RedisService.{
  RedisClient, ArrayText, ParsedArray, unreadable, no_array, items, get_content_key,
  get_history_key, get-set_ne, get-set_self, stored_at-set, content-ne-history, pushed,
}
use starsyncbackend.SyncGateway.{SyncGateway, Env, Sent, send_all, broadcast}
use starsyncbackend.SyncGateway.Notes.{
  Note, HistoryItem, any_wants_array, apply_actions, content_of, history_of, written, Task, done,
  failed, step, alone, process_message, sync_message,
}

module _ (c : RedisClient) (notes_text : ArrayText c Note)
    (history_text : ArrayText c HistoryItem) where
  abbrev pub content : String → c.Store → ParsedArray c.Text Note
  content = content_of c notes_text history_text

  abbrev pub history : String → c.Store → ParsedArray c.Text HistoryItem
  history = history_of c notes_text history_text

  -- The store after both writes, or the first alone.
  abbrev pub with_history : String → List HistoryItem → c.Store → c.Store
  with_history project hs s = c.set (get_history_key project) (history_text.write hs) s

  abbrev pub with_content : String → c.Text → c.Store → c.Store
  with_content project text s = c.set (get_content_key project) text s

  pub content_kept :
      (project : String) (v : c.Text) (s : c.Store)
      → c.get (get_content_key project) (c.set (get_history_key project) v s)
        ≡ c.get (get_content_key project) s
  content_kept project v s =
      get-set_ne c (get_history_key project) (get_content_key project) v s
        (λ e. content-ne-history project project (sym e))

  pub history_kept :
      (project : String) (v : c.Text) (s : c.Store)
      → c.get (get_history_key project) (c.set (get_content_key project) v s)
        ≡ c.get (get_history_key project) s
  history_kept project v s =
      get-set_ne c (get_content_key project) (get_history_key project) v s
        (content-ne-history project project)

  -- No key but the project's two is changed.
  abbrev pub Elsewhere : String → c.Store → c.Store → Type 0
  Elsewhere project s s' =
      (k : String)
      → get_history_key project ≢ k
      → get_content_key project ≢ k
      → c.get k s' ≡ c.get k s

  module _ (project : String) (item : HistoryItem) (sent : Sent) (s : c.Store) where
    -- The history has grown, and the call has thrown, or has written a content and sent its message.
    abbrev pub Thrown : List HistoryItem → c.Store × Option Sent → Type 0
    Thrown hs (s', answer) =
        (history project s' ≡ items (hs ++ item ∷ []))
        × (c.get (get_content_key project) s' ≡ c.get (get_content_key project) s)
        × Elsewhere project s s'
        × (answer ≡ none)

    abbrev pub Sends : List HistoryItem → ParsedArray c.Text Note → c.Store × Option Sent → Type 0
    Sends hs after (s', answer) =
        (history project s' ≡ items (hs ++ item ∷ []))
        × (content project s' ≡ after)
        × Elsewhere project s s'
        × (answer ≡ some sent)

    -- What happens, by what is stored as the history and the content, and by whether an action wants
    -- an array.
    abbrev pub Outcome :
        ParsedArray c.Text HistoryItem
        → ParsedArray c.Text Note
        → Bool
        → c.Store × Option Sent
        → Type 0
    Outcome (items hs) (items ns) wants r = Sends hs (items (apply_actions item.notes ns)) r
    Outcome (items hs) (no_array text) true r = Thrown hs r
    Outcome (items hs) (no_array text) false r = Sends hs (notes_text.read text) r
    Outcome (items hs) unreadable wants r = Thrown hs r
    Outcome unreadable _ wants r = r ≡ (s, none)
    Outcome (no_array text) _ wants r = r ≡ (s, none)

    Elsewhere-both :
        (u v : c.Text)
        → Elsewhere project s
            (c.set (get_content_key project) v (c.set (get_history_key project) u s))
    Elsewhere-both u v k hne cne =
        get-set_ne c (get_content_key project) k v (c.set (get_history_key project) u s) cne
        ∙ get-set_ne c (get_history_key project) k u s hne

    -- The call, up to the content.
    alone-items :
        (hs : List HistoryItem)
        → history project s ≡ items hs
        → (o : Option c.Text)
        → written c notes_text history_text item.notes (c.get (get_content_key project) s) ≡ o
        → alone c notes_text history_text project item s ≡ elim o [
          | none ↦ (failed, with_history project (hs ++ item ∷ []) s)
          | some text ↦ (done, with_content project text (with_history project (hs ++ item ∷ []) s))
        ]
    unfolding alone step pushed
    alone-items hs eh none ew =
        ground (arith, eh, ew, content_kept project (history_text.write (hs ++ item ∷ [])) s)
    alone-items hs eh (some text) ew =
        ground (arith, eh, ew, content_kept project (history_text.write (hs ++ item ∷ [])) s)

  module _ (e : Env) (client project : String) (item : HistoryItem) (notes : Json) (g : SyncGateway)
      (s : c.Store) (clients : List String) where
    abbrev sent : Sent
    sent = send_all e (sync_message notes (str item.sender) (str project)) clients

    abbrev processed : c.Store × Option Sent
    processed = process_message c notes_text history_text e client project item notes g s

    broadcast_room :
        JsMap.get project g.rooms ≡ some clients
        → broadcast e project (sync_message notes (str item.sender) (str project)) g ≡ sent
    unfolding broadcast
    broadcast_room room = rw (room, broadcast) refl

    processed-done :
        (s' : c.Store)
        → JsMap.get project g.rooms ≡ some clients
        → alone c notes_text history_text project item s ≡ (done, s')
        → processed ≡ (s', some sent)
    unfolding process_message
    processed-done s' room run =
        rw (room, process_message)
          (rw run (
            rw (broadcast_room room)
              (ap (λ (x : Task c notes_text history_text × c.Store). (x.1, some sent)) run)))

    processed-failed :
        (s' : c.Store)
        → JsMap.get project g.rooms ≡ some clients
        → alone c notes_text history_text project item s ≡ (failed, s')
        → processed ≡ (s', none)
    unfolding process_message
    processed-failed s' room run =
        rw (room, process_message)
          (rw run (ap (λ (x : Task c notes_text history_text × c.Store). (x.1, none)) run))

    thrown :
        (hs : List HistoryItem)
        → JsMap.get project g.rooms ≡ some clients
        → history project s ≡ items hs
        → written c notes_text history_text item.notes (c.get (get_content_key project) s) ≡ none
        → Thrown project item sent s hs processed
    thrown hs room eh ew =
        let v = history_text.write (hs ++ item ∷ []) in
        rw
          (processed-failed (with_history project (hs ++ item ∷ []) s) room
            (alone-items project item sent s hs eh none ew))
          (
            stored_at-set c history_text (get_history_key project) (hs ++ item ∷ []) s,
            content_kept project v s,
            λ k hne cne. get-set_ne c (get_history_key project) k v s hne,
            refl,
          )

    sends :
        (hs : List HistoryItem) (text : c.Text)
        → JsMap.get project g.rooms ≡ some clients
        → history project s ≡ items hs
        → written c notes_text history_text item.notes (c.get (get_content_key project) s)
          ≡ some text
        → Sends project item sent s hs (notes_text.read text) processed
    sends hs text room eh ew =
        let v = history_text.write (hs ++ item ∷ []) in
        let s1 = with_history project (hs ++ item ∷ []) s in
        rw
          (processed-done (with_content project text s1) room
            (alone-items project item sent s hs eh (some text) ew))
          (
            ap (λ o. history_text.read (get_or o c.empty_array)) (history_kept project text s1)
                ∙ stored_at-set c history_text (get_history_key project) (hs ++ item ∷ []) s,
            ap (λ o. notes_text.read (get_or o c.empty_array))
                (get-set_self c (get_content_key project) text s1),
            Elsewhere-both project item sent s v text,
            refl,
          )

    -- A history that is no array.
    stops :
        JsMap.get project g.rooms ≡ some clients
        → pushed c history_text item (c.get (get_history_key project) s) ≡ none
        → processed ≡ (s, none)
    unfolding alone step
    stops room ep = processed-failed s room (ground (arith, ep))

    -- A sync message to a room that exists, when nothing else runs during its awaits, by what is
    -- stored: where the history and the content are arrays, the content becomes what the message's
    -- actions make of it in their order, the history has the message as its last item, and the
    -- message goes to the room's open connections, the sender's among them. Where the history is no
    -- array or no JSON, the handler throws and changes nothing. Where the content is no JSON, or is
    -- no array and an action adds or deletes, the history has grown, and the handler throws: the
    -- content stays and nothing is sent. Where it is no array and every action updates or is
    -- unknown, the content is written back as it was, and the message is sent. No other key of
    -- Redis is changed.
    pub process_message_lem :
        JsMap.get project g.rooms ≡ some clients
        → Outcome project item
            (send_all e (sync_message notes (str item.sender) (str project)) clients)
            s
            (history_of c notes_text history_text project s)
            (content_of c notes_text history_text project s)
            (any_wants_array item.notes)
            (process_message c notes_text history_text e client project item notes g s)
    unfolding written pushed
    process_message_lem room =
        go (history project s) refl (content project s) refl (any_wants_array item.notes) refl
      where
        go :
            (h : ParsedArray c.Text HistoryItem)
            → history project s ≡ h
            → (k : ParsedArray c.Text Note) → content project s ≡ k
            → (b : Bool) → any_wants_array item.notes ≡ b
            → Outcome project item sent s h k b processed
        go (items hs) eh (items ns) ek b eb =
            subst (λ k. Sends project item sent s hs k processed)
              (notes_text.read-write (apply_actions item.notes ns))
              (sends hs (notes_text.write (apply_actions item.notes ns)) room eh
                (ground (arith, ek)))
        go (items hs) eh (no_array text) ek true eb = thrown hs room eh (ground (arith, ek, eb))
        go (items hs) eh (no_array text) ek false eb =
            sends hs text room eh (ground (arith, ek, eb))
        go (items hs) eh unreadable ek b eb = thrown hs room eh (ground (arith, ek))
        go unreadable eh k ek b eb = stops room (ground (arith, eh))
        go (no_array text) eh k ek b eb = stops room (ground (arith, eh))

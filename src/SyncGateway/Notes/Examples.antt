-- ===== src/SyncGateway/Notes/Examples.antt =====
-- Runs of `processMessage` of src/socket/sync.gateway.ts: a room with two connections.
use starsyncbackend.Prelude.{
  String, true, List, [], ◌∷◌, ◌++◌, none, some, ◌≡◌, ◌⊎◌, ◌==◌, refl, inl, inr, arith, eq_iff,
  Bool-cases, sym,
}
use starsyncbackend.Prelude.Int.{pos}
use starsyncbackend.Json.{null, str}
use starsyncbackend.JsMap
use starsyncbackend.JsMap.{get-set, get-delete}
use starsyncbackend.LockQueue
use starsyncbackend.RedisService.{
  RedisClient, ArrayText, ParsedArray, unreadable, no_array, items, get_content_key,
}
use starsyncbackend.SyncGateway.{SyncGateway, Env, send_all}
use starsyncbackend.SyncGateway.Notes.{
  Note, NoteAction, HistoryItem, add, delete, apply_actions, process_message, content_of,
  history_of, sync_message, any_wants_array,
}
use starsyncbackend.SyncGateway.Notes.Content.{notes_of, actions_of, apply_actions-local}
use starsyncbackend.SyncGateway.Notes.Stored.{Outcome, process_message_lem}
use starsyncbackend.SyncGateway.Notes.Interleaved.{after, late, in_turns, lost_update}

abbrev env : Env
env = record { is_open = λ c. true; now = 5; parse = λ t. none; to_text = λ v. "" }

abbrev room_of_two : SyncGateway
room_of_two = record {
  rooms = ("song", "c1" ∷ "c2" ∷ []) ∷ [];
  user_connections = [];
  client_to_user_id = [];
  pending_messages = [];
  lock_queue = LockQueue.init;
}

-- The texts of a store: the JSON text of an array is the array itself.
data StoredText : Type 0 where
  brackets braces : StoredText
  notes_text : List Note → StoredText
  history_text : List HistoryItem → StoredText

abbrev read_notes : StoredText → ParsedArray StoredText Note
read_notes brackets = items []
read_notes braces = no_array braces
read_notes (notes_text xs) = items xs
read_notes (history_text xs) = unreadable

abbrev read_history : StoredText → ParsedArray StoredText HistoryItem
read_history brackets = items []
read_history braces = no_array braces
read_history (notes_text xs) = unreadable
read_history (history_text xs) = items xs

abbrev redis : RedisClient
redis = record {
  Store = List (String × StoredText);
  Text = StoredText;
  empty_array = brackets;
  get = JsMap.get;
  set = JsMap.set;
  del = JsMap.delete;
  get-set = λ k j v s. get-set k j v s;
  get-del = λ k j s. get-delete k j s;
}

abbrev note_array : ArrayText redis Note
note_array = record {
  read = read_notes;
  write = notes_text;
  read-write = λ xs. refl;
  read-empty = refl;
}

abbrev history_array : ArrayText redis HistoryItem
history_array = record {
  read = read_history;
  write = history_text;
  read-write = λ xs. refl;
  read-empty = refl;
}

abbrev note : String → Note
note uuid = record { uuid = uuid; note = pos 60; velocity = pos 100; pos = pos 0; length = pos 4 }

abbrev adds : String → NoteAction
adds uuid = record { target = note uuid; action = add }

abbrev deletes : String → NoteAction
deletes uuid = record { target = note uuid; action = delete }

abbrev sync_item : String → List NoteAction → HistoryItem
sync_item sender actions = record { notes = actions; sender = sender }

apply_actions-local_example :
    notes_of "n1" (apply_actions (adds "n1" ∷ deletes "n2" ∷ []) (note "n2" ∷ []))
    ≡ apply_actions
        (actions_of "n1" (adds "n1" ∷ deletes "n2" ∷ []))
        (notes_of "n1" (note "n2" ∷ []))
apply_actions-local_example =
    apply_actions-local "n1" (adds "n1" ∷ deletes "n2" ∷ []) (note "n2" ∷ [])

disjoint :
    (u : String) → (actions_of u (adds "n1" ∷ []) ≡ []) ⊎ (actions_of u (deletes "n2" ∷ []) ≡ [])
disjoint u = elim (Bool-cases ("n1" == u)) [
  | inl e ↦ inr (rw (sym ((eq_iff "n1" u).0 e)) refl)
  | inr e ↦ inl (ground (arith, e))
]

room_there : JsMap.get "song" room_of_two.rooms ≡ some ("c1" ∷ "c2" ∷ [])
unfolding JsMap.get
room_there = refl

-- The content is an object, as a restored snapshot of an empty project leaves it: an action throws.
abbrev braced : List (String × StoredText)
braced = (get_content_key "song", braces) ∷ []

process_message_lem_example :
    let item = sync_item "alice" (adds "n1" ∷ []) in
    Outcome redis note_array history_array "song" item
      (send_all env (sync_message null (str "alice") (str "song")) ("c1" ∷ "c2" ∷ []))
      braced
      (history_of redis note_array history_array "song" braced)
      (content_of redis note_array history_array "song" braced)
      (any_wants_array item.notes)
      (process_message redis note_array history_array env "c1" "song" item null room_of_two braced)
process_message_lem_example =
    process_message_lem redis note_array history_array env "c1" "song"
      (sync_item "alice" (adds "n1" ∷ [])) null room_of_two braced ("c1" ∷ "c2" ∷ []) room_there

lost_update_example :
    let first = sync_item "alice" (adds "n1" ∷ []) in
    let second = sync_item "bob" (adds "n2" ∷ []) in
    let after = after redis note_array history_array "song" first second [] [] [] in
    let late = late redis note_array history_array "song" first second [] [] [] in
    let in_turns = in_turns redis note_array history_array "song" first second [] [] [] in
    (content_of redis note_array history_array "song" (after late)
      ≡ items (apply_actions second.notes []))
    × (history_of redis note_array history_array "song" (after late)
        ≡ items (([] ++ first ∷ []) ++ second ∷ []))
    × (content_of redis note_array history_array "song" (after in_turns)
        ≡ items (apply_actions second.notes []))
    × (history_of redis note_array history_array "song" (after in_turns)
        ≡ items ([] ++ second ∷ []))
unfolding JsMap.get
lost_update_example =
    lost_update redis note_array history_array "song" (sync_item "alice" (adds "n1" ∷ []))
      (sync_item "bob" (adds "n2" ∷ [])) [] [] [] refl refl

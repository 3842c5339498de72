-- ===== src/SyncGateway/Notes.antt =====
-- `processMessage` of src/socket/sync.gateway.ts: the notes of a project, kept in Redis as one text.
-- The handler is cut at its awaits, those of `addItem` among them.
pub mod Content
pub mod Stored
pub mod Interleaved
mod Examples
use starsyncbackend.Prelude.{
  String, Bool, true, false, ◌||◌, Option, List, [], ◌∷◌, ◌++◌, none, some, ◌==◌, not, filter,
  if◌then◌else◌, map,
}
use starsyncbackend.Prelude.Int.{ℤ}
use starsyncbackend.Json.{Json, str, end, field, event_object}
use starsyncbackend.JsMap
use starsyncbackend.RedisService.{
  RedisClient, ArrayText, ParsedArray, unreadable, no_array, items, stored_at, read_answer, pushed,
  get_item, set_item, get_content_key, get_history_key,
}
use starsyncbackend.SyncGateway.{SyncGateway, Env, Sent, broadcast}

-- An action that is none of the three is skipped.
pub data SyncAction : Type 0 where
  add update delete other : SyncAction

pub record Note : Type 0 where
  pub uuid : String
  pub note : ℤ
  pub velocity : ℤ
  pub pos : ℤ
  pub length : ℤ

-- `INoteAction`: a note with what to do with it.
pub record NoteAction : Type 0 where
  pub target : Note
  pub open target use *
  pub action : SyncAction

pub record HistoryItem : Type 0 where
  pub notes : List NoteAction
  pub sender : String

-- The inner loop of the `UPDATE` case.
update_all : Note → List Note → List Note
update_all n [] = []
update_all n (x ∷ xs) = if x.uuid == n.uuid then n ∷ update_all n xs else x ∷ update_all n xs

pub apply_action : NoteAction → List Note → List Note
unfolding update_all
apply_action a content = elim a.action [
  | add ↦ content ++ a.target ∷ []
  | update ↦ update_all a.target content
  | delete ↦ filter (λ x. not (x.uuid == a.target.uuid)) content
  | other ↦ content
]

-- The loop over the notes of the message.
pub apply_actions : List NoteAction → List Note → List Note
apply_actions [] content = content
apply_actions (a ∷ rest) content = apply_actions rest (apply_action a content)

-- What `broadcast` is given; `notes` is passed on as it came.
abbrev pub sync_message : Json → Json → Json → Json
sync_message notes sender project_id =
    event_object "sync"
      (field "notes" notes (field "sender" sender (field "projectId" project_id end)))

-- Whether an action calls a method that only arrays have.
abbrev wants_array : SyncAction → Bool
wants_array add = true
wants_array delete = true
wants_array _ = false

pub any_wants_array : List NoteAction → Bool
any_wants_array [] = false
any_wants_array (a ∷ rest) = wants_array a.action || any_wants_array rest

module _ (c : RedisClient) (notes_text : ArrayText c Note)
    (history_text : ArrayText c HistoryItem) where
  abbrev pub content_of : String → c.Store → ParsedArray c.Text Note
  content_of project s = stored_at c notes_text (get_content_key project) s

  abbrev pub history_of : String → c.Store → ParsedArray c.Text HistoryItem
  history_of project s = stored_at c history_text (get_history_key project) s

  -- The loop over the stored content, and what the last SET is given; or a throw. On a value that is no
  -- array an update finds nothing.
  pub written : List NoteAction → Option c.Text → Option c.Text
  unfolding apply_actions any_wants_array
  written actions answer = elim (read_answer c notes_text answer) [
    | unreadable ↦ none
    | no_array text ↦ if any_wants_array actions then none else some text
    | items xs ↦ some (notes_text.write (apply_actions actions xs))
  ]

  -- How far a call has come, at its awaits: GET and SET of `addItem`, GET and SET of the content.
  pub data Task : Type 0 where
    begun history_set done failed : Task
    history_read content_read : Option c.Text → Task

  -- A call runs from one await to the next.
  pub step : String → HistoryItem → Task → c.Store → Task × c.Store
  unfolding pushed written
  step project item begun s = (history_read (get_item c (get_history_key project) s), s)
  step project item (history_read answer) s = elim (pushed c history_text item answer) [
    | none ↦ (failed, s)
    | some text ↦ (history_set, set_item c (get_history_key project) text s)
  ]
  step project item history_set s = (content_read (get_item c (get_content_key project) s), s)
  step project item (content_read answer) s = elim (written item.notes answer) [
    | none ↦ (failed, s)
    | some text ↦ (done, set_item c (get_content_key project) text s)
  ]
  step project item done s = (done, s)
  step project item failed s = (failed, s)

  -- The four parts, when nothing else runs in between.
  pub alone : String → HistoryItem → c.Store → Task × c.Store
  unfolding step
  alone project item s =
      let (t1, s1) = step project item begun s in
      let (t2, s2) = step project item t1 s1 in
      let (t3, s3) = step project item t2 s2 in step project item t3 s3

  -- The whole handler, when nothing else runs during its awaits: what is sent is `none` where it throws.
  pub process_message :
      Env → String → String → HistoryItem → Json → SyncGateway → c.Store → c.Store × Option Sent
  unfolding alone
  process_message e client project item notes g s = elim (JsMap.get project g.rooms) [
    | none ↦
        (s, some ((client, event_object "error" (field "message" (str "Room not found") end)) ∷ []))
    | some clients ↦
        let (t, s') = alone project item s in
        elim t [
          | done ↦ (
            s',
            some (broadcast e project (sync_message notes (str item.sender) (str project)) g),
          )
          | _ ↦ (s', none)
        ]
  ]

  -- Two calls on one store, in the order of a schedule: `true` is a part of the first.
  pub record Pair : Type 0 where
    pub first : Task
    pub second : Task
    pub store : c.Store

  pub run_both : String → HistoryItem → HistoryItem → List Bool → Pair → Pair
  unfolding step
  run_both project a b [] p = p
  run_both project a b (turn ∷ turns) p =
      let (t, s) = step project a p.first p.store in
      let (u, s') = step project b p.second p.store in
      run_both project a b turns (
        if turn
        then record { first = t; second = p.second; store = s }
        else record { first = p.first; second = u; store = s' })

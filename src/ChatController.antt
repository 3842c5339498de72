-- ===== src/ChatController.antt =====
-- src/socket/chat.controller.ts: who may read which history, and what is marked as read.
mod Examples
use starsyncbackend.Prelude.{
  ℕ, suc, ◌+◌, String, Bool, true, false, not, ◌&&◌, ◌||◌, List, [], ◌∷◌, Option, none, some, ◌==◌,
  ◌≡◌, refl, if◌then◌else◌, truthy, length, arith, Bool-cases, Option-cases, inl, inr, get_or, ltb,
}
use starsyncbackend.Prelude.Int.{ℤ, pos, negsuc, ltb_ℤ, pos_part}
use starsyncbackend.Texts.{split}
use starsyncbackend.JsSet
use starsyncbackend.Effect.{Effect, Result, ok, err, unauthorized, forbidden, ◌>>=◌, pure, throw}
use starsyncbackend.ChatService.{
  ChatRepositories, ChatDb, ChatHistory, get_chat_history, get_chat_history_between_users,
  mark_room_as_read, mark_messages_as_read, mark_message_as_read,
}

-- A history, or `{ error }`.
pub data HistoryReply : Type 0 where
  history : ChatHistory → HistoryReply
  failed : String → HistoryReply

-- `n < m` of a number that may be `NaN`.
abbrev is_below : Option ℤ → ℤ → Bool
is_below none m = false
is_below (some n) m = ltb_ℤ n m

abbrev is_above : Option ℤ → ℤ → Bool
is_above none m = false
is_above (some n) m = ltb_ℤ m n

unfoldable pub invalid_pagination : Option ℤ → Option ℤ → Bool
invalid_pagination page limit =
    is_below page (pos 1) || is_below limit (pos 1) || is_above limit (pos 100)

-- A number that passed the test.
abbrev number : Option ℤ → Option ℕ
number none = none
number (some n) = some (pos_part n)

abbrev invalid_message : String
invalid_message =
    "Invalid pagination parameters. Page must be >= 1, limit must be between 1 and 100"

pub record MarkBody : Type 0 where
  pub message_id : Option String
  pub message_ids : Option (List String)
  pub room : Option String

-- What `markAsRead` answers, without its sentences.
pub data MarkReply : Type 0 where
  marked_room : ℕ → String → MarkReply
  marked_many : ℕ → MarkReply
  marked_one : MarkReply
  nothing_given : MarkReply

-- `text && text.length > 0` of a list.
abbrev is_given : Option (List String) → Bool
is_given none = false
is_given (some ids) = ltb 0 (length ids)

-- The handlers, with `parseInt` as a parameter, `none` being `NaN`. The user is the one that the
-- middleware found in the token.
module _ (c : ChatRepositories) (parse_int : String → Option ℤ) where
  unfoldable pub history_between_users :
      Option String → String → String → String → String → Effect (ChatDb c) HistoryReply
  unfolding invalid_pagination
  history_between_users user a b page limit =
      let me = get_or user "" in
      if not (truthy user)
      then throw (unauthorized "User not authenticated")
      else if not (me == a) && not (me == b)
      then throw (forbidden "You can only access your own chat history")
      else let p = parse_int page in
        let l = parse_int limit in
        if invalid_pagination p l
        then pure (failed invalid_message)
        else do h ← get_chat_history_between_users c a b (number p) (number l); pure (history h)

  unfoldable pub history_of_room :
      Option String → String → String → String → Effect (ChatDb c) HistoryReply
  unfolding invalid_pagination
  history_of_room user room page limit =
      let parts = split "_" room in
      if not (truthy user)
      then throw (unauthorized "User not authenticated")
      else if ltb (length parts) 2 || ltb 2 (length parts)
      then pure (failed "Invalid room format")
      else if not (JsSet.has (get_or user "") parts)
      then throw (forbidden "You can only access rooms you are part of")
      else let p = parse_int page in
        let l = parse_int limit in
        if invalid_pagination p l
        then pure (failed invalid_message)
        else do h ← get_chat_history c room (number p) (number l); pure (history h)

  unfoldable pub mark_as_read : Option String → MarkBody → Effect (ChatDb c) MarkReply
  mark_as_read user body =
      let me = get_or user "" in
      if not (truthy user)
      then throw (unauthorized "User not authenticated")
      else if truthy body.room
      then mark_room_as_read c (get_or body.room "") me
        >>= (λ n. pure (marked_room n (get_or body.room "")))
      else if is_given body.message_ids
      then mark_messages_as_read c (get_or body.message_ids []) me >>= (λ n. pure (marked_many n))
      else if truthy body.message_id
      then mark_message_as_read c (get_or body.message_id "") me >>= (λ r. pure marked_one)
      else pure nothing_given

  -- A reply that is a history was for this user.
  abbrev pub IsHistory : Result HistoryReply → Type 0
  IsHistory r = (h : ChatHistory) × (r ≡ ok (history h))

  -- A history between two users is only answered to a request with one of the two as its user, and
  -- the history of a room only to one whose user is one of the two parts of the room's name.
  pub only_participants :
      (user : Option String) (a b room page limit : String) (s : ChatDb c)
      → (IsHistory (history_between_users user a b page limit s).0
          → (me : String) × (user ≡ some me) × ((me == a || me == b) ≡ true))
        × (IsHistory (history_of_room user room page limit s).0
            → (me : String) × (user ≡ some me)
              × (JsSet.has me (split "_" room) ≡ true)
              × (length (split "_" room) ≡ 2))
  unfolding history_between_users history_of_room
  only_participants none a b room page limit s =
      (λ (h, e). absurd (ground (arith, e)), λ (h, e). absurd (ground (arith, e)))
  only_participants (some me) a b room page limit s = (
    λ (h, e). (me, refl, ground (arith, e)),
    λ (h, e). (me, refl, ground (arith, e), ground (arith, e)),
  )

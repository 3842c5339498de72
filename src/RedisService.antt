-- ===== src/RedisService.antt =====
-- src/libs/redis/redis.service.ts, over the client library `ioredis`: its commands are a parameter,
-- with what GET returns after SET and DEL. So are the texts that are stored, of which the code names
-- `'[]'`, and how the text of an array is written and read: with the round trip of `JSON.stringify`
-- and `JSON.parse`.
use Prim.Native.String.{◌++◌ as concat, slice}
use mathlib.Core.Bool.{false≢true}
use text.Mathlib.TextLemmas.{append_cancel_left}
use text.Mathlib.TextPositions.{slice-append_left}
use starsyncbackend.Prelude.{
  String, List, [], ◌∷◌, ◌++◌, Option, none, some, ◌==◌, if◌then◌else◌, ◌≡◌, ◌≢◌, get_or, arith,
  eq_iff, eq_refl, sym, ◌∙◌, ap, zero,
}

pub record RedisClient : Type 1 where
  pub Store : Type 0
  pub Text : Type 0
  -- `'[]'`
  pub empty_array : Text
  pub get : String → Store → Option Text
  pub set : String → Text → Store → Store
  pub del : String → Store → Store
  pub get-set :
      (k j : String) (v : Text) (s : Store)
      → get j (set k v s) ≡ (if k == j then some v else get j s)
  pub get-del : (k j : String) (s : Store) → get j (del k s) ≡ (if k == j then none else get j s)

-- What `JSON.parse` makes of a text at a place that wants an array of some type: it throws, or the value
-- is an array, or it has no `push`, and then the text is what `JSON.stringify` makes of it again.
pub data ParsedArray (Text A : Type 0) : Type 0 where
  unreadable : ParsedArray Text A
  no_array : Text → ParsedArray Text A
  items : List A → ParsedArray Text A

-- How such a place reads a text, where an empty one and what counts as false may stand for an empty
-- array, and `JSON.stringify` at arrays. The arrays that are stored have items of the type alone.
pub record ArrayText (c : RedisClient) (A : Type 0) : Type 0 where
  pub read : c.Text → ParsedArray c.Text A
  pub write : List A → c.Text
  pub read-write : (xs : List A) → read (write xs) ≡ items xs
  pub read-empty : read c.empty_array ≡ items []

unfoldable pub get_content_key : String → String
get_content_key key = concat "StarSync-Content-" key

unfoldable pub get_history_key : String → String
get_history_key key = concat "StarSync-History-" key

module _ (c : RedisClient) where
  abbrev pub set_item : String → c.Text → c.Store → c.Store
  set_item key value s = c.set key value s

  abbrev pub get_item : String → c.Store → Option c.Text
  get_item key s = c.get key s

  abbrev pub delete_item : String → c.Store → c.Store
  delete_item key s = c.del key s

  -- What is read of the answer of GET; no answer is the text `'[]'`.
  abbrev pub read_answer : {A : Type 0} → ArrayText c A → Option c.Text → ParsedArray c.Text A
  read_answer t answer = t.read (get_or answer c.empty_array)

  abbrev pub stored_at : {A : Type 0} → ArrayText c A → String → c.Store → ParsedArray c.Text A
  stored_at t key s = read_answer t (c.get key s)

  -- `addItem` between its two awaits: what SET is given after the answer of GET, or a throw.
  unfoldable pub pushed : {A : Type 0} → ArrayText c A → A → Option c.Text → Option c.Text
  pushed t value answer = elim (read_answer t answer) [
    | unreadable ↦ none
    | no_array text ↦ none
    | items xs ↦ some (t.write (xs ++ value ∷ []))
  ]

  -- `addItem`, when nothing else runs during its awaits: `none` where it throws.
  unfoldable pub add_item : {A : Type 0} → ArrayText c A → String → A → c.Store → Option c.Store
  unfolding pushed
  add_item t key value s = elim (pushed t value (get_item key s)) [
    | none ↦ none
    | some text ↦ some (set_item key text s)
  ]

  pub get-set_self : (key : String) (v : c.Text) (s : c.Store) → c.get key (c.set key v s) ≡ some v
  get-set_self key v s = rw c.get-set (rw (eq_refl key))

  -- What a key holds after an array is written there.
  pub stored_at-set :
      {A : Type 0} (t : ArrayText c A) (key : String) (xs : List A) (s : c.Store)
      → stored_at t key (c.set key (t.write xs) s) ≡ items xs
  stored_at-set t key xs s =
      ap (λ o. read_answer t o) (get-set_self key (t.write xs) s) ∙ t.read-write xs

  pub get-set_ne :
      (key k : String) (v : c.Text) (s : c.Store) → key ≢ k → c.get k (c.set key v s) ≡ c.get k s
  get-set_ne key k v s ne = rw c.get-set (ground (arith, eq_iff key k))

-- The content and the history never share a key.
pub content-ne-history : (p q : String) → get_content_key p ≢ get_history_key q
unfolding get_content_key get_history_key
content-ne-history p q e =
    let same : ◌≡◌ {A = String} "StarSync-Content-" "StarSync-History-" =
      sym (slice-append_left "StarSync-Content-" p)
      ∙ ap (λ t. slice t zero 17) e
      ∙ slice-append_left "StarSync-History-" q in
    false≢true ((eq_iff "StarSync-Content-" "StarSync-History-").1 same)

pub content_key-injective : (p q : String) → get_content_key p ≡ get_content_key q → p ≡ q
unfolding get_content_key
content_key-injective p q e = append_cancel_left "StarSync-Content-" p q e

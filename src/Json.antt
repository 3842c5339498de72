-- ===== src/Json.antt =====
-- The values of `JSON.parse`, with `undefined`, and what JavaScript does on reading them. Numbers are
-- whole. An object has no key twice.
use starsyncbackend.Prelude.{
  zero, String, Bool, true, false, not, Option, none, some, ◌==◌, if◌then◌else◌,
}
use starsyncbackend.Prelude.Int.{ℤ, pos}

mutual
  pub data Json : Type 0 where
    undefined null : Json
    bool : Bool → Json
    num : ℤ → Json
    str : String → Json
    arr : Items → Json
    obj : Fields → Json

  pub data Items : Type 0 where
    nil : Items
    cons : Json → Items → Items

  pub data Fields : Type 0 where
    end : Fields
    field : String → Json → Fields → Fields

-- A field that is not there reads as `undefined`.
unfoldable pub find_field : String → Fields → Json
find_field k end = undefined
find_field k (field j v fs) = if j == k then v else find_field k fs

-- The properties of a value; reading one of `undefined` or `null` throws.
unfoldable pub members : Json → Option (String → Json)
members undefined = none
members null = none
members (obj fs) = some (λ k. find_field k fs)
members _ = some (λ k. undefined)

-- `if (v)`
unfoldable pub is_truthy : Json → Bool
is_truthy undefined = false
is_truthy null = false
is_truthy (bool b) = b
is_truthy (num (pos zero)) = false
is_truthy (num n) = true
is_truthy (str s) = not (s == "")
is_truthy _ = true

-- `v || d`
abbrev pub value_or : Json → Json → Json
value_or v d = if is_truthy v then v else d

-- `v === undefined`
abbrev pub is_undefined : Json → Bool
is_undefined undefined = true
is_undefined _ = false

-- `v === undefined || v === null`
abbrev pub is_nullish : Json → Bool
is_nullish undefined = true
is_nullish null = true
is_nullish _ = false

-- `v ?? d`
abbrev pub nullish_or : Json → Json → Json
nullish_or v d = if is_nullish v then d else v

-- `{ event, ...rest }`
abbrev pub event_object : String → Fields → Json
event_object event rest = obj (field "event" (str event) rest)

-- `{ event, data: { ...fields } }`
abbrev pub event_data : String → Fields → Json
event_data event fields = event_object event (field "data" (obj fields) end)

-- ===== src/SetMap.antt =====
-- A map from texts to sets of texts, as the services keep it: a set is made for its first member and
-- taken out with its last.
use starsyncbackend.Prelude.{
  String, Bool, true, false, ◌&&◌, ◌≡◌, refl, List, [], ◌∷◌, some, none, arith, eq_iff, ◌==◌,
  if◌then◌else◌, get_or, Option-cases, inl, inr, sym,
}
use starsyncbackend.JsMap
use starsyncbackend.JsMap.{get-set, get-delete}
use starsyncbackend.JsSet
use starsyncbackend.JsSet.{
  has-add, has-delete, has-is_empty, is_empty-add, add-Unique, delete-Unique,
}

-- `if (!m.has(key)) m.set(key, new Set()); m.get(key).add(x)`
unfoldable pub add_member :
    String → String → List (String × List String) → List (String × List String)
add_member key x m = JsMap.set key (JsSet.add x (get_or (JsMap.get key m) [])) m

-- `m.get(key).delete(x)`, and the key with its set when nothing is left in that.
unfoldable pub remove_member :
    String → String → List (String × List String) → List (String × List String)
remove_member key x m = elim (JsMap.get key m) [
  | none ↦ m
  | some xs ↦
      let rest = JsSet.delete x xs in
      if JsSet.is_empty rest then JsMap.delete key m else JsMap.set key rest m
]

-- The set of the key has the member.
unfoldable pub contains : String → String → List (String × List String) → Bool
contains user key m = JsSet.has key (get_or (JsMap.get user m) [])

-- No key has an empty set.
pub record NoneEmpty (m : List (String × List String)) : Type 0 where
  pub at_user :
      (u : String) (keys : List String) → JsMap.get u m ≡ some keys → JsSet.is_empty keys ≡ false

has-nil : (k : String) → JsSet.has k [] ≡ false
has-nil k = has-is_empty k [] refl

pub contains-remove_member :
    (user key u k : String) (m : List (String × List String))
    → contains u k (remove_member user key m)
      ≡ (if user == u && key == k then false else contains u k m)
unfolding contains remove_member
contains-remove_member user key u k m = elim (Option-cases (JsMap.get user m)) [
  | inl e ↦ ground (arith, eq_iff user u, has-nil k)
  | inr (keys, e) ↦ ground (
    arith,
    eq_iff user u,
    eq_iff key k,
    get-delete user u m,
    get-set user u (JsSet.delete key keys) m,
    has-delete key k keys,
    has-is_empty k (JsSet.delete key keys),
    has-nil k,
  )
]

pub contains-add_member :
    (user key u k : String) (m : List (String × List String))
    → contains u k (add_member user key m)
      ≡ (if user == u && key == k then true else contains u k m)
unfolding contains add_member
contains-add_member user key u k m = ground (
  arith,
  eq_iff user u,
  eq_iff key k,
  get-set user u (JsSet.add key (get_or (JsMap.get user m) [])) m,
  has-add key k (get_or (JsMap.get user m) []),
)

pub remove_member-NoneEmpty :
    (user key : String) {m : List (String × List String)}
    → NoneEmpty m
    → NoneEmpty (remove_member user key m)
unfolding remove_member
remove_member-NoneEmpty user key {m} h = record {
  at_user = λ u ks e. elim (Option-cases (JsMap.get user m)) [
    | inl absent ↦ h.at_user u ks (ground arith)
    | inr (keys, there) ↦ ground (
      arith,
      eq_iff user u,
      get-delete user u m,
      get-set user u (JsSet.delete key keys) m,
      h.at_user u ks,
    )
  ];
}

pub add_member-NoneEmpty :
    (user key : String) {m : List (String × List String)}
    → NoneEmpty m
    → NoneEmpty (add_member user key m)
unfolding add_member
add_member-NoneEmpty user key {m} h = record {
  at_user = λ u ks e.
      let old = get_or (JsMap.get user m) [] in
      ground (arith, get-set user u (JsSet.add key old) m, is_empty-add key old, h.at_user u ks);
}

pub add_member-Distinct :
    (key x : String) (m : List (String × List String))
    → JsMap.Distinct m
    → JsMap.Distinct (add_member key x m)
unfolding add_member
add_member-Distinct key x m d = JsMap.Distinct-set key _ m d

pub remove_member-Distinct :
    (key x : String) (m : List (String × List String))
    → JsMap.Distinct m
    → JsMap.Distinct (remove_member key x m)
unfolding remove_member
remove_member-Distinct key x m d = elim (Option-cases (JsMap.get key m)) [
  | inl e ↦ rw (e, remove_member) d
  | inr (xs, e) ↦
      ground
        (arith, e, JsMap.Distinct-delete key m d, JsMap.Distinct-set key (JsSet.delete x xs) m d)
]

-- The member leaves every set, and a set that is left empty goes.
unfoldable pub leave_every : String → List (String × List String) → List (String × List String)
leave_every x [] = []
leave_every x ((key, xs) ∷ m) =
    let rest = JsSet.delete x xs in
    if JsSet.is_empty rest then leave_every x m else (key, rest) ∷ leave_every x m

get-leave_every-none :
    (x key : String) (m : List (String × List String))
    → JsMap.get key m ≡ none
    → JsMap.get key (leave_every x m) ≡ none
unfolding leave_every JsMap.get
get-leave_every-none x key [] h = refl
get-leave_every-none x key ((j, xs) ∷ m) h = ground (arith, get-leave_every-none x key m)

pub contains-leave_every :
    (x key y : String) (m : List (String × List String))
    → JsMap.Distinct m
    → contains key y (leave_every x m) ≡ (if x == y then false else contains key y m)
unfolding leave_every contains JsMap.get
contains-leave_every x key y [] d = ground (arith, has-nil y)
contains-leave_every x key y ((j, xs) ∷ m) d = ground (
  arith,
  contains-leave_every x key y m d.1,
  has-delete x y xs,
  eq_iff j key,
  has-nil y,
  get-leave_every-none x key m,
  has-is_empty y (JsSet.delete x xs),
  d.0,
)

pub leave_every-Distinct :
    (x : String) (m : List (String × List String))
    → JsMap.Distinct m
    → JsMap.Distinct (leave_every x m)
unfolding leave_every
leave_every-Distinct x [] d = tt
leave_every-Distinct x ((j, xs) ∷ m) d =
    ground (arith, leave_every-Distinct x m d.1, get-leave_every-none x j m d.0)

pub leave_every-NoneEmpty :
    (x : String) (m : List (String × List String)) → JsMap.Distinct m → NoneEmpty (leave_every x m)
unfolding leave_every JsMap.get
leave_every-NoneEmpty x [] d = record { at_user = λ u keys e. cc }
leave_every-NoneEmpty x ((j, xs) ∷ m) d =
    let rest = leave_every-NoneEmpty x m d.1 in
    record { at_user = λ u keys e. ground (arith, rest.at_user u keys) }

-- The members of a key; none where the key is not there.
abbrev pub members_of : String → List (String × List String) → List String
members_of key m = get_or (JsMap.get key m) []

is_empty-eq-nil : (xs : List String) → JsSet.is_empty xs ≡ true → xs ≡ []
is_empty-eq-nil [] h = refl
is_empty-eq-nil (x ∷ xs) h = cc

delete-nil : (x : String) → JsSet.delete x [] ≡ []
unfolding JsSet.delete
delete-nil x = refl

members_of-remove_member :
    (key x k : String) (m : List (String × List String))
    → members_of k (remove_member key x m)
      ≡ (if key == k then JsSet.delete x (members_of k m) else members_of k m)
unfolding remove_member
members_of-remove_member key x k m = elim (Option-cases (JsMap.get key m)) [
  | inl e ↦ ground (arith, eq_iff key k, delete-nil x)
  | inr (xs, e) ↦ ground (
    arith,
    eq_iff key k,
    get-delete key k m,
    get-set key k (JsSet.delete x xs) m,
    is_empty-eq-nil (JsSet.delete x xs),
  )
]

members_of-leave_every :
    (x k : String) (m : List (String × List String))
    → JsMap.Distinct m
    → members_of k (leave_every x m) ≡ JsSet.delete x (members_of k m)
unfolding leave_every JsMap.get
members_of-leave_every x k [] d = sym (delete-nil x)
members_of-leave_every x k ((j, xs) ∷ m) d = ground (
  arith,
  members_of-leave_every x k m d.1,
  eq_iff j k,
  get-leave_every-none x k m,
  d.0,
  is_empty-eq-nil (JsSet.delete x xs),
  delete-nil x,
)

-- No key stands twice, no set is empty, and no member stands twice in one.
pub record IsProper (m : List (String × List String)) : Type 0 where
  pub distinct : JsMap.Distinct m
  pub none_empty : NoneEmpty m
  pub unique : (key : String) → JsSet.Unique (members_of key m)

pub add_member-IsProper :
    (key x : String) (m : List (String × List String)) → IsProper m → IsProper (add_member key x m)
add_member-IsProper key x m p = record {
  distinct = add_member-Distinct key x m p.distinct;
  none_empty = add_member-NoneEmpty key x p.none_empty;
  unique = λ k.
      unfold add_member in
      ground (
        arith,
        get-set key k (JsSet.add x (members_of key m)) m,
        add-Unique x (members_of key m) (p.unique key),
        p.unique k,
      );
}

pub remove_member-IsProper :
    (key x : String) (m : List (String × List String))
    → IsProper m
    → IsProper (remove_member key x m)
remove_member-IsProper key x m p = record {
  distinct = remove_member-Distinct key x m p.distinct;
  none_empty = remove_member-NoneEmpty key x p.none_empty;
  unique = λ k.
      ground
        (arith, members_of-remove_member key x k m, p.unique k, delete-Unique x (members_of k m));
}

pub leave_every-IsProper :
    (x : String) (m : List (String × List String)) → IsProper m → IsProper (leave_every x m)
leave_every-IsProper x m p = record {
  distinct = leave_every-Distinct x m p.distinct;
  none_empty = leave_every-NoneEmpty x m p.distinct;
  unique = λ k.
      rw (members_of-leave_every x k m p.distinct) (delete-Unique x (members_of k m) (p.unique k));
}

pub empty-IsProper : IsProper []
unfolding JsMap.get
empty-IsProper = record {
  distinct = tt;
  none_empty = record { at_user = λ u xs h. cc };
  unique = λ k. tt;
}

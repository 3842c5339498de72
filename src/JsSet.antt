-- ===== src/JsSet.antt =====
-- JavaScript's `Set` of texts: its members in insertion order.
use starsyncbackend.Prelude.{
  String, Bool, true, false, ◌≡◌, refl, List, [], ◌∷◌, arith, eq_iff, ◌==◌, if◌then◌else◌,
}

unfoldable pub has : String → List String → Bool
has x [] = false
has x (y ∷ ys) = if y == x then true else has x ys

unfoldable pub push : String → List String → List String
push x [] = x ∷ []
push x (y ∷ ys) = y ∷ push x ys

unfoldable pub add : String → List String → List String
unfolding has push
add x ys = if has x ys then ys else push x ys

unfoldable pub delete : String → List String → List String
delete x [] = []
delete x (y ∷ ys) = if y == x then delete x ys else y ∷ delete x ys

-- `set.size === 0`
abbrev pub is_empty : List String → Bool
is_empty [] = true
is_empty (y ∷ ys) = false

has-push :
    (x y : String) (ys : List String) → has y (push x ys) ≡ (if x == y then true else has y ys)
unfolding has push
has-push x y [] = refl
has-push x y (z ∷ ys) = ground (arith, has-push x y ys, eq_iff x y, eq_iff z y)

pub has-add :
    (x y : String) (ys : List String) → has y (add x ys) ≡ (if x == y then true else has y ys)
unfolding add
has-add x y ys = ground (arith, has-push x y ys, eq_iff x y)

pub has-delete :
    (x y : String) (ys : List String) → has y (delete x ys) ≡ (if x == y then false else has y ys)
unfolding has delete
has-delete x y [] = ground arith
has-delete x y (z ∷ ys) = ground (arith, has-delete x y ys, eq_iff z x, eq_iff z y, eq_iff x y)

-- An empty set has no member.
pub has-is_empty : (y : String) (ys : List String) → is_empty ys ≡ true → has y ys ≡ false
unfolding has
has-is_empty y [] h = refl
has-is_empty y (z ∷ ys) h = cc

pub ruleset set_laws = (has-add, has-delete)

is_empty-push : (x : String) (ys : List String) → is_empty (push x ys) ≡ false
unfolding push
is_empty-push x [] = refl
is_empty-push x (y ∷ ys) = refl

pub is_empty-add : (x : String) (ys : List String) → is_empty (add x ys) ≡ false
unfolding add has
is_empty-add x [] = is_empty-push x []
is_empty-add x (y ∷ ys) = ground (arith, is_empty-push x (y ∷ ys))

-- No member stands twice.
abbrev pub Unique : List String → Type 0
Unique [] = Unit
Unique (y ∷ ys) = (has y ys ≡ false) × Unique ys

push-Unique : (x : String) (ys : List String) → has x ys ≡ false → Unique ys → Unique (push x ys)
unfolding push has
push-Unique x [] h u = (refl, tt)
push-Unique x (y ∷ ys) h u =
    ground (arith, push-Unique x ys, has-push x y ys, eq_iff x y, eq_iff y x, u.0, u.1)

pub add-Unique : (x : String) (ys : List String) → Unique ys → Unique (add x ys)
unfolding add
add-Unique x ys u = ground (arith, push-Unique x ys)

pub delete-Unique : (x : String) (ys : List String) → Unique ys → Unique (delete x ys)
unfolding delete
delete-Unique x [] u = tt
delete-Unique x (y ∷ ys) u =
    ground (arith, delete-Unique x ys u.1, has-delete x y ys, u.0, eq_iff x y, eq_iff y x)

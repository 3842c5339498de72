-- ===== src/Texts.antt =====
-- What the services do with texts: the runtime's order and `split`.
use Prim.Native.Nat.{Ordering, compare as compare_ℕ}
use Prim.Native.Nat.compare as compare_ℕ
use Prim.Native.Char.{Char, code}
use Prim.Native.String.compare
use Prim.Native.String.{String, compare, then as and_then, ◌++◌ as concat}
use text.Mathlib.TextLemmas.{nil-append, cons-append}
use text.Mathlib.TextEquality.{path_by_compare}
use starsyncbackend.Prelude.{
  ℕ, zero, suc, Bool, true, false, ◌||◌, List, [], ◌∷◌, ◌≡◌, refl, arith, if◌then◌else◌, ◌⊎◌, inl,
  inr,
}

-- `a <= b` in the order in which `sort` puts texts.
unfoldable pub precedes : String → String → Bool
precedes a b = elim (compare a b) [ Ordering.gt ↦ false | _ ↦ true ]

flip : Ordering → Ordering
flip Ordering.lt = Ordering.gt
flip Ordering.eq = Ordering.eq
flip Ordering.gt = Ordering.lt

flip-compare_ℕ : (m n : ℕ) → compare_ℕ n m ≡ flip (compare_ℕ m n)
unfolding flip
flip-compare_ℕ zero zero = refl
flip-compare_ℕ zero (suc n) = rw (compare_ℕ.zero-suc n, compare_ℕ.suc-zero n) refl
flip-compare_ℕ (suc m) zero = rw (compare_ℕ.zero-suc m, compare_ℕ.suc-zero m) refl
flip-compare_ℕ (suc m) (suc n) =
    rw (compare_ℕ.suc-suc m n, compare_ℕ.suc-suc n m) (flip-compare_ℕ m n)

flip-then : (a b : Ordering) → and_then (flip a) (flip b) ≡ flip (and_then a b)
unfolding flip
flip-then Ordering.lt b = refl
flip-then Ordering.eq b = refl
flip-then Ordering.gt b = refl

flip-compare : (a b : String) → compare b a ≡ flip (compare a b)
unfolding flip
flip-compare String.[] String.[] = refl
flip-compare String.[] (String.◌∷◌ d t) = rw (compare.nil-cons d t, compare.cons-nil d t) refl
flip-compare (String.◌∷◌ c s) String.[] = rw (compare.nil-cons c s, compare.cons-nil c s) refl
flip-compare (String.◌∷◌ c s) (String.◌∷◌ d t) =
    rw
      (
        compare.cons-cons c d s t,
        compare.cons-cons d c t s,
        flip-compare_ℕ (code c) (code d),
        flip-compare s t,
      )
      (flip-then (compare_ℕ (code c) (code d)) (compare s t))

-- Of two texts one precedes the other, and both precede each other only if they are equal.
pub precedes_cases :
    (a b : String)
    → ((a ≡ b) × (precedes a b ≡ true) × (precedes b a ≡ true))
      ⊎ ((precedes a b ≡ true) × (precedes b a ≡ false))
      ⊎ ((precedes a b ≡ false) × (precedes b a ≡ true))
unfolding precedes flip
precedes_cases a b = go (compare a b) refl
  where
    go :
        (o : Ordering)
        → compare a b ≡ o
        → ((a ≡ b) × (precedes a b ≡ true) × (precedes b a ≡ true))
          ⊎ ((precedes a b ≡ true) × (precedes b a ≡ false))
          ⊎ ((precedes a b ≡ false) × (precedes b a ≡ true))
    go Ordering.lt e =
        inr (inl (rw (e, precedes) refl, rw (flip-compare a b, precedes) (rw e refl)))
    go Ordering.eq e =
        inl (
          path_by_compare a b e,
          rw (e, precedes) refl,
          rw (flip-compare a b, precedes) (rw e refl),
        )
    go Ordering.gt e =
        inr (inr (rw (e, precedes) refl, rw (flip-compare a b, precedes) (rw e refl)))

same : Char → Char → Bool
same c d = elim (compare_ℕ (code c) (code d)) [ Ordering.eq ↦ true | _ ↦ false ]

compare_ℕ_refl : (n : ℕ) → compare_ℕ n n ≡ Ordering.eq
compare_ℕ_refl zero = refl
compare_ℕ_refl (suc n) = rw (compare_ℕ.suc-suc n n) (compare_ℕ_refl n)

same_refl : (c : Char) → same c c ≡ true
unfolding same
same_refl c = rw (compare_ℕ_refl (code c), same) refl

-- The character in front of the first part.
in_front : Char → List String → List String
in_front c [] = []
in_front c (part ∷ parts) = String.◌∷◌ c part ∷ parts

-- `text.split(separator)` for a separator of one character.
unfoldable pub split : Char → String → List String
unfolding same in_front
split separator String.[] = "" ∷ []
split separator (String.◌∷◌ c s) =
    let rest = split separator s in if same c separator then "" ∷ rest else in_front c rest

unfoldable pub has_char : Char → String → Bool
unfolding same
has_char separator String.[] = false
has_char separator (String.◌∷◌ c s) = same c separator || has_char separator s

-- A text without the separator is one part.
pub split-whole : (c : Char) (s : String) → has_char c s ≡ false → split c s ≡ s ∷ []
unfolding split has_char in_front
split-whole c String.[] h = refl
split-whole c (String.◌∷◌ d s) h =
    let other : same d c ≡ false = ground (arith, h) in
    let whole : split c s ≡ s ∷ [] = split-whole c s (ground (arith, h)) in
    rw (other, split) (rw whole refl)

pub split-concat :
    (c : Char) (s t : String)
    → has_char c s ≡ false
    → split c (concat s (String.◌∷◌ c t)) ≡ s ∷ split c t
unfolding split has_char in_front
split-concat c String.[] t h =
    rw (nil-append (String.◌∷◌ c t))
      (let found : same c c ≡ true = same_refl c in rw (found, split) refl)
split-concat c (String.◌∷◌ d s) t h = rw (cons-append d s (String.◌∷◌ c t)) (
    let other : same d c ≡ false = ground (arith, h) in
    let rest : split c (concat s (String.◌∷◌ c t)) ≡ s ∷ split c t =
      split-concat c s t (ground (arith, h)) in
    rw (other, split) (rw rest refl))

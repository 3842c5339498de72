-- ===== src/Database/InMemory.antt =====
-- A repository whose table is a list: the laws of `Repository` can hold.
use starsyncbackend.Prelude.{
  String, Bool, true, false, not, ◌&&◌, ◌==◌, Option, none, some, ◌≡◌, refl, ◌<◌, ◌≤◌,
  if◌then◌else◌, List, [], ◌∷◌, filter, arith, length, count,
}
use starsyncbackend.Effect.{ok}
use starsyncbackend.Database.{Repository}

module _ {T : Type 0} where
  pub first : (T → Bool) → List T → Option T
  first p [] = none
  first p (x ∷ t) = if p x then some x else first p t

  pub count_mono :
      (p q : T → Bool) (t : List T) → ((x : T) → p x ≡ true → q x ≡ true) → count p t ≤ count q t
  count_mono p q [] h = ground arith
  count_mono p q (x ∷ t) h = ground (arith, h x, count_mono p q t h)

  pub count-never : (p : T → Bool) (t : List T) → ((x : T) → p x ≡ false) → count p t ≡ 0
  count-never p [] h = refl
  count-never p (x ∷ t) h = ground (arith, h x, count-never p t h)

  pub first-none : (p : T → Bool) (t : List T) → first p t ≡ none → count p t ≡ 0
  unfolding first
  first-none p [] e = refl
  first-none p (x ∷ t) e = ground (arith, first-none p t)

  pub first-here : (p : T → Bool) (t : List T) (r : T) → first p t ≡ some r → p r ≡ true
  unfolding first
  first-here p [] r e = ground (arith, e)
  first-here p (x ∷ t) r e = ground (arith, first-here p t r)

  pub first-counts :
      (p q : T → Bool) (t : List T) (r : T) → first p t ≡ some r → q r ≡ true → 0 < count q t
  unfolding first
  first-counts p q [] r e h = ground (arith, e)
  first-counts p q (x ∷ t) r e h = ground (arith, first-counts p q t r)

  pub count-filter :
      (p q : T → Bool) (t : List T)
      → count p (filter (λ x. not (q x)) t) ≡ count (λ x. p x && not (q x)) t
  count-filter p q [] = refl
  count-filter p q (x ∷ t) = ground (arith, count-filter p q t)

  pub count-kept : (p q : T → Bool) (t : List T) → count q (filter p t) ≡ count (λ x. p x && q x) t
  count-kept p q [] = refl
  count-kept p q (x ∷ t) = ground (arith, count-kept p q t)

  -- A saved row is put in front; a row that was loaded replaces those of its id.
  unfoldable pub in_memory : (T → String) → Repository T
  unfolding first
  in_memory id_of = record {
    Table = List T;
    id_of = id_of;
    count = count;
    find_one = λ p t. ok (first p t);
    find_many = λ p t. ok (filter p t);
    insert = λ f t. ok (f "id" (length t) ∷ t, f "id" (length t));
    update = λ r t. ok (r ∷ filter (λ x. not (id_of x == id_of r)) t);
    delete = λ q t. ok (filter (λ x. not (q x)) t);
    count-never = count-never;
    count_mono = count_mono;
    find_one-none = λ p t e. first-none p t (ground (arith, e));
    find_one-some = λ p t r e.
        (first-here p t r (ground (arith, e)), λ q h. first-counts p q t r (ground (arith, e)) h);
    insert-row = λ f t t' r e. ("id", length t, ground (arith, e));
    count-insert = λ f p t t' r e. ground (arith, e);
    count-update =
        λ p r t t' e some_row. ground (arith, e, count-filter p (λ x. id_of x == id_of r) t);
    count-delete = λ p q t t' e. ground (arith, e, count-filter p q t);
    count-find_many = λ p q t rows e. ground (arith, e, count-kept p q t);
  }

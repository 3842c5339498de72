-- ===== src/LatencyLogger/Sorting.antt =====
-- The sort of latencies in src/libs/telemetry/latency-logger.service.ts: order, and what it keeps.
use starsyncbackend.Prelude.{
  ℕ, zero, suc, ◌+◌, ◌≤◌, ◌<◌, Bool, not, List, [], ◌∷◌, ◌≡◌, refl, arith, if◌then◌else◌, length,
  count, All, Bool-cases, inl, inr,
}
use starsyncbackend.Prelude.Int.{ℤ, ltb_ℤ, ◌≤ℤ◌}
use starsyncbackend.LatencyLogger.{insert, sort, at}

-- Each number is at most those behind it.
abbrev pub Sorted : List ℤ → Type 0
Sorted [] = Unit
Sorted (x ∷ xs) = All (λ y. x ≤ℤ y) xs × Sorted xs

pub count-sort : (p : ℤ → Bool) (xs : List ℤ) → count p (sort xs) ≡ count p xs
unfolding sort insert
count-sort p [] = refl
count-sort p (x ∷ xs) = ground (arith, count-insert x (sort xs), count-sort p xs)
  where
    count-insert :
        (x : ℤ) (xs : List ℤ) → count p (insert x xs) ≡ (if p x then 1 else 0) + count p xs
    count-insert x [] = refl
    count-insert x (y ∷ ys) = ground (arith, count-insert x ys)

pub length-sort : (xs : List ℤ) → length (sort xs) ≡ length xs
unfolding sort insert
length-sort [] = refl
length-sort (x ∷ xs) = ground (arith, length-insert x (sort xs), length-sort xs)
  where
    length-insert : (x : ℤ) (xs : List ℤ) → length (insert x xs) ≡ suc (length xs)
    length-insert x [] = refl
    length-insert x (y ∷ ys) = ground (arith, length-insert x ys)

All-insert : (P : ℤ → Type 0) (x : ℤ) (xs : List ℤ) → P x → All P xs → All P (insert x xs)
unfolding insert
All-insert P x [] h a = (h, tt)
All-insert P x (y ∷ ys) h a = elim (Bool-cases (ltb_ℤ y x)) [
  | inl e ↦ rw (e, insert) (a.0, All-insert P x ys h a.1)
  | inr e ↦ rw (e, insert) (h, a)
]

insert-All : (P : ℤ → Type 0) (x : ℤ) (xs : List ℤ) → All P (insert x xs) → P x × All P xs
unfolding insert
insert-All P x [] a = a
insert-All P x (y ∷ ys) a = elim (Bool-cases (ltb_ℤ y x)) [
  | inl e ↦
      let a' : All P (y ∷ insert x ys) = rw (e, insert) at a in
      let rest = insert-All P x ys a'.1 in (rest.0, (a'.0, rest.1))
  | inr e ↦ let a' : All P (x ∷ y ∷ ys) = rw (e, insert) at a in a'
]

pub sort-All : (P : ℤ → Type 0) (xs : List ℤ) → All P (sort xs) → All P xs
unfolding sort
sort-All P [] a = tt
sort-All P (x ∷ xs) a = let rest = insert-All P x (sort xs) a in (rest.0, sort-All P xs rest.1)

All-mono : (P Q : ℤ → Type 0) (xs : List ℤ) → ((x : ℤ) → P x → Q x) → All P xs → All Q xs
All-mono P Q [] f a = tt
All-mono P Q (x ∷ xs) f a = (f x a.0, All-mono P Q xs f a.1)

insert-Sorted : (x : ℤ) (xs : List ℤ) → Sorted xs → Sorted (insert x xs)
unfolding insert
insert-Sorted x [] s = (tt, tt)
insert-Sorted x (y ∷ ys) s = elim (Bool-cases (ltb_ℤ y x)) [
  | inl e ↦
      rw (e, insert) (All-insert (λ z. y ≤ℤ z) x ys (ground (arith, e)) s.0, insert-Sorted x ys s.1)
  | inr e ↦
      let first : x ≤ℤ y = ground (arith, e) in
      rw (e, insert)
        ((first, All-mono (λ z. y ≤ℤ z) (λ z. x ≤ℤ z) ys (λ z h. omega (arith, first, h)) s.0), s)
]

pub sort-Sorted : (xs : List ℤ) → Sorted (sort xs)
unfolding sort
sort-Sorted [] = tt
sort-Sorted (x ∷ xs) = insert-Sorted x (sort xs) (sort-Sorted xs)

pub All-at : (P : ℤ → Type 0) (xs : List ℤ) (i : ℕ) → All P xs → i < length xs → P (at xs i)
unfolding at
All-at P [] i a h = absurd (omega (arith, h))
All-at P (x ∷ xs) zero a h = a.0
All-at P (x ∷ xs) (suc i) a h = All-at P xs i a.1 (omega (arith, h))

-- What stands further behind is not smaller.
pub at-mono : (xs : List ℤ) (i j : ℕ) → Sorted xs → i ≤ j → j < length xs → at xs i ≤ℤ at xs j
unfolding at
at-mono [] i j s h k = absurd (omega (arith, k))
at-mono (x ∷ xs) zero zero s h k = omega arith
at-mono (x ∷ xs) zero (suc j) s h k = All-at (λ y. x ≤ℤ y) xs j s.0 (omega (arith, k))
at-mono (x ∷ xs) (suc i) zero s h k = absurd (omega (arith, h))
at-mono (x ∷ xs) (suc i) (suc j) s h k = at-mono xs i j s.1 (omega (arith, h)) (omega (arith, k))

-- Those up to an index are not greater than what stands there.
pub count-at :
    (xs : List ℤ) (k : ℕ)
    → Sorted xs
    → k < length xs
    → suc k ≤ count (λ x. not (ltb_ℤ (at xs k) x)) xs
unfolding at
count-at [] k s h = absurd (omega (arith, h))
count-at (x ∷ xs) zero s h = ground (arith)
count-at (x ∷ xs) (suc k) s h =
    let here = All-at (λ y. x ≤ℤ y) xs k s.0 (omega (arith, h)) in
    let rest = count-at xs k s.1 (omega (arith, h)) in ground (arith, here, rest)

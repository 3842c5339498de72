-- ===== src/Effect/Keeps.antt =====
-- What holds of the state after a method, from its parts.
use starsyncbackend.Prelude.{Bool, true, false, ◌≡◌, refl, arith, Option, none, some}
use starsyncbackend.Effect.{Effect, Result, Error, ok, err, ◌>>=◌, throw_if, proceed, found}

module _ {S B : Type 0} (P : S → Type 0) where
  -- What holds after the first part of a method, and after the rest wherever the first part returns.
  pub bind_keeps :
      {A : Type 0} (m : Effect S A) (f : A → Effect S B) (s : S)
      → P (m s).1
      → ((a : A) → (m s).0 ≡ ok a → P (f a (m s).1).1)
      → P ((m >>= f) s).1
  bind_keeps {A} m f s first rest = go (m s).0 refl
    where
      go : (x : Result A) → (m s).0 ≡ x → P ((m >>= f) s).1
      go (ok a) e = rw (e, proceed) (rest a e)
      go (err x) e = rw (e, proceed) first

  pub throw_if_keeps :
      (test : Bool) (x : Error) (f : Unit {0} → Effect S B) (s : S)
      → P s
      → (test ≡ false → P (f tt s).1)
      → P ((throw_if test x >>= f) s).1
  throw_if_keeps true x f s first rest = first
  throw_if_keeps false x f s first rest = rest refl

  -- A call that changes nothing.
  pub lookup_keeps :
      {A : Type 0} (m : Effect S A) (f : A → Effect S B) (s : S)
      → ((t : S) → (m t).1 ≡ t)
      → P s
      → ((a : A) → P (f a s).1)
      → P ((m >>= f) s).1
  lookup_keeps m f s reads o rest = bind_keeps m f s (rw reads o) λ a _. rw reads (rest a)

  pub found_keeps :
      {A : Type 0} (row : Option A) (x : Error) (f : A → Effect S B) (s : S)
      → P s
      → ((a : A) → row ≡ some a → P (f a s).1)
      → P ((found row x >>= f) s).1
  found_keeps none x f s o rest = o
  found_keeps (some a) x f s o rest = rest a refl

-- A method that returns does so by its first part returning.
pub bind_ok :
    {S A B : Type 0} (m : Effect S A) (f : A → Effect S B) (s : S) (b : B)
    → ((m >>= f) s).0 ≡ ok b
    → (a : A) × ((m s).0 ≡ ok a) × ((m >>= f) s ≡ f a (m s).1)
bind_ok {A} m f s b done = go (m s).0 refl
  where
    go : (x : Result A) → (m s).0 ≡ x → (a : A) × ((m s).0 ≡ ok a) × ((m >>= f) s ≡ f a (m s).1)
    go (ok a) e = (a, e, rw (e, proceed))
    go (err x) e = absurd (ground (arith, rw (e, proceed) at done))

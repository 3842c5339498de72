-- ===== src/Effect.antt =====
-- Methods that change the database and may throw. What was written before a throw stays written, so
-- the state comes back beside the error too.
pub mod Keeps
use starsyncbackend.Prelude.{
  String, Bool, true, false, Option, none, some, ◌≡◌, refl, ◌⊎◌, inl, inr, List, [], ◌∷◌,
}

-- The exceptions of NestJS that the services throw, with their message; `database` stands for
-- whatever a call of the database throws.
pub data Error : Type 0 where
  forbidden not_found bad_request unauthorized : String → Error
  database : Error

pub data Result {ℓ} (A : Type ℓ) : Type ℓ where
  ok : A → Result A
  err : Error → Result A

abbrev pub Effect : Type 0 → Type 0 → Type 0
Effect S A = S → Result A × S

abbrev pub proceed : {S A B : Type 0} → Result A → (A → Effect S B) → Effect S B
proceed (ok a) f s = f a s
proceed (err x) f s = (err x, s)

infixl 5 ◌>>=◌ ◌>>◌
abbrev pub ◌>>=◌ : {S A B : Type 0} → Effect S A → (A → Effect S B) → Effect S B
◌>>=◌ m f s = let (r, s') = m s in proceed r f s'

abbrev pub ◌>>◌ : {S A B : Type 0} → Effect S A → Effect S B → Effect S B
◌>>◌ m n = m >>= λ _. n

abbrev pub pure : {S A : Type 0} → A → Effect S A
pure a s = (ok a, s)

abbrev pub throw : {S A : Type 0} → Error → Effect S A
throw x s = (err x, s)

-- `if (test) throw x;`
abbrev pub throw_if : {S : Type 0} → Bool → Error → Effect S (Unit {0})
throw_if true x s = (err x, s)
throw_if false x s = (ok tt, s)

-- The value that a query found, or a throw.
abbrev pub found : {S A : Type 0} → Option A → Error → Effect S A
found none x = throw x
found (some a) x = pure a

-- A call that reads, and a block whose errors are handled by a value or another error.
abbrev pub query : {S A : Type 0} → (S → Result A) → Effect S A
query f s = (f s, s)

abbrev pub or_value : {A : Type 0} → Result A → A → Result A
or_value (ok a) d = ok a
or_value (err x) d = ok d

abbrev pub or_error : {A : Type 0} → Result A → Error → Result A
or_error (ok a) y = ok a
or_error (err x) y = err y

pub Result-cases {ℓ} :
    {A : Type ℓ} (r : Result A) → ((a : A) × (r ≡ ok a)) ⊎ ((x : Error) × (r ≡ err x))
Result-cases (ok a) = inl (a, refl)
Result-cases (err x) = inr (x, refl)

-- `Promise.all` over calls that only read: the first error, or all the answers.
unfoldable pub each : {S A B : Type 0} → (A → Effect S B) → List A → Effect S (List B)
each f [] = pure []
each f (x ∷ xs) = do y ← f x; ys ← each f xs; pure (y ∷ ys)

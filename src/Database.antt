-- ===== src/Database.antt =====
-- A repository of TypeORM, as the services use it: a parameter, with what its calls do when they
-- succeed. `count p t` is the number of rows that pass a test; every law is about that number.
pub mod InMemory
pub mod Rows
use starsyncbackend.Prelude.{count as count_list}
use starsyncbackend.Prelude.{
  List, ℕ, String, Bool, true, false, not, ◌&&◌, ◌==◌, Option, none, some, ◌≡◌, ◌+◌, ◌<◌, ◌≤◌,
  if◌then◌else◌,
}
use starsyncbackend.Effect.{Result, ok, err}

pub record Repository (T : Type 0) : Type 1 where
  pub Table : Type 0
  pub id_of : T → String
  pub count : (T → Bool) → Table → ℕ
  -- `findOneBy`, `findOne`
  pub find_one : (T → Bool) → Table → Result (Option T)
  -- `find`, `findBy`, `getMany`
  pub find_many : (T → Bool) → Table → Result (List T)
  -- `save` of a new entity: the database gives its id and the time
  pub insert : (String → ℕ → T) → Table → Result (Table × T)
  -- `save` of an entity that was loaded
  pub update : T → Table → Result Table
  -- `delete`, `remove`
  pub delete : (T → Bool) → Table → Result Table
  pub count-never : (p : T → Bool) (t : Table) → ((x : T) → p x ≡ false) → count p t ≡ 0
  pub count_mono :
      (p q : T → Bool) (t : Table) → ((x : T) → p x ≡ true → q x ≡ true) → count p t ≤ count q t
  pub find_one-none : (p : T → Bool) (t : Table) → find_one p t ≡ ok none → count p t ≡ 0
  pub find_one-some :
      (p : T → Bool) (t : Table) (r : T)
      → find_one p t ≡ ok (some r)
      → (p r ≡ true) × ((q : T → Bool) → q r ≡ true → 0 < count q t)
  pub insert-row :
      (f : String → ℕ → T) (t t' : Table) (r : T)
      → insert f t ≡ ok (t', r)
      → (id : String) × (at : ℕ) × (r ≡ f id at)
  pub count-insert :
      (f : String → ℕ → T) (p : T → Bool) (t t' : Table) (r : T)
      → insert f t ≡ ok (t', r)
      → count p t' ≡ (if p r then 1 else 0) + count p t
  pub count-update :
      (p : T → Bool) (r : T) (t t' : Table)
      → update r t ≡ ok t'
      → 0 < count (λ x. id_of x == id_of r) t
      → count p t' ≡ (if p r then 1 else 0) + count (λ x. p x && not (id_of x == id_of r)) t
  pub count-delete :
      (p q : T → Bool) (t t' : Table)
      → delete q t ≡ ok t'
      → count p t' ≡ count (λ x. p x && not (q x)) t
  pub count-find_many :
      (p q : T → Bool) (t : Table) (rows : List T)
      → find_many p t ≡ ok rows
      → count_list q rows ≡ count (λ x. p x && q x) t

-- ===== src/Database/Rows.antt =====
-- Which row a query of a repository finds.
use starsyncbackend.Prelude.{
  ℕ, ◌<◌, String, Bool, true, not, ◌&&◌, some, ◌≡◌, inl, inr, arith, Bool-cases,
}
use starsyncbackend.Effect.{ok}
use starsyncbackend.Database.{Repository}

-- A new row that is alone in passing a test is the row that a query of the test finds.
pub only_row :
    {T : Type 0} (r : Repository T) (f : String → ℕ → T) (p q : T → Bool) (t t' : r.Table) (w u : T)
    → r.count p t ≡ 0
    → r.insert f t ≡ ok (t', w)
    → q w ≡ true
    → r.find_one p t' ≡ ok (some u)
    → q u ≡ true
only_row r f p q t t' w u alone added same is_found = elim (Bool-cases (q u)) [
  | inl holds ↦ holds
  | inr fails ↦
      let (here, counted) = r.find_one-some p t' u is_found in
      let other : _ → Bool = λ x. p x && not (q x) in
      let some_other : 0 < r.count other t' = counted other (ground (arith, here, fails)) in
      let fewer = r.count_mono other p t (λ x h. ground (arith, h)) in
      absurd (ground (arith, some_other, fewer, alone, same, r.count-insert f other t t' w added))
]

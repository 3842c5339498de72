-- ===== src/PasswordHash/Examples.antt =====
-- Runs of src/libs/services/phpass.service.ts over libraries that are made up.
use starsyncbackend.Prelude.{true, [], ◌∷◌, ◌≡◌, arith, length}
use starsyncbackend.PasswordHash.{codes, hash_password, check_password}
use starsyncbackend.PasswordHash.Check.{check_password-hash_password}
use starsyncbackend.PasswordHash.Sample.{library}

check_password-hash_password_example :
    (check_password library
        (codes "secret")
        (hash_password library (1 ∷ 2 ∷ 3 ∷ 4 ∷ 5 ∷ 6 ∷ []) (codes "secret"))
      ≡ true)
    × (length (hash_password library (1 ∷ 2 ∷ 3 ∷ 4 ∷ 5 ∷ 6 ∷ []) (codes "secret")) ≡ 34)
check_password-hash_password_example =
    check_password-hash_password library (1 ∷ 2 ∷ 3 ∷ 4 ∷ 5 ∷ 6 ∷ []) (codes "secret") (omega arith)

-- ===== src/PasswordHash/Sample.antt =====
-- Libraries that are made up, for runs of src/libs/services/phpass.service.ts.
use starsyncbackend.Prelude.{
  ℕ, suc, false, [], ◌∷◌, ◌++◌, Option, none, some, ◌≡◌, refl, arith, if◌then◌else◌, length,
}
use starsyncbackend.PasswordHash.{Text, Libraries, codes, equal_codes, has_code}

-- The index of a code unit.
abbrev pub index_of : ℕ → Text → Option ℕ
index_of c [] = none
index_of c (x ∷ xs) =
    let rest = index_of c xs in
    if equal_codes x c then some 0 else elim rest [ none ↦ none | some i ↦ some (suc i) ]

pub index_of-first :
    (before after : Text) (c : ℕ)
    → has_code c before ≡ false
    → index_of c (before ++ c ∷ after) ≡ some (length before)
index_of-first [] after c h = ground arith
index_of-first (x ∷ before) after c h = ground (arith, index_of-first before after c, h)

abbrev pub first_code : Text → ℕ
first_code [] = 0
first_code (c ∷ text) = c

abbrev pub library : Libraries
library = record {
  md5 = λ text. codes "0123456789abcdef";
  ord = first_code;
  strpos = λ text c. index_of (first_code c) text;
  triple_des = λ text key. codes "des";
  ord-byte = λ c h. refl;
  strpos-first = index_of-first;
}

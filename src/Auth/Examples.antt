-- ===== src/Auth/Examples.antt =====
-- A registration and a login of src/auth/auth.service.ts, over libraries that are made up.
use Prim.Native.Char.{code}
use starsyncbackend.Prelude.{
  ℕ, zero, suc, ◌+◌, String, [], ◌∷◌, none, ◌==◌, ◌≡◌, refl, ◌∙◌, if◌then◌else◌, arith,
}
use starsyncbackend.Database.InMemory.{in_memory}
use starsyncbackend.Entities.{Db}
use starsyncbackend.Entities.Sample.{repositories, user}
use starsyncbackend.PasswordHash.{Text, codes, equal_codes}
use starsyncbackend.PasswordHash.Sample.{library}
use starsyncbackend.Auth.{AuthEnv, RegisterDto, register}
use starsyncbackend.Auth.Login.{LoggedIn, login_after_register}

-- A text of code units as a text: for each, as many letters and a comma.
letters : ℕ → String → String
letters zero s = s
letters (suc n) s = String.◌∷◌ "a" (letters n s)

written : Text → String
unfolding letters
written [] = ""
written (n ∷ t) = letters n (String.◌∷◌ "," (written t))

read_from : ℕ → String → Text
read_from n String.[] = []
read_from n (String.◌∷◌ c s) =
    let more = read_from (suc n) s in
    let next = read_from 0 s in if equal_codes (code c) 97 then more else n ∷ next

read_from-letters :
    (n m : ℕ) (s : String) → read_from n (letters m (String.◌∷◌ "," s)) ≡ (n + m) ∷ read_from 0 s
unfolding read_from letters
read_from-letters n zero s = ground arith
read_from-letters n (suc m) s = ground (arith, read_from-letters (suc n) m s)

read-written : (t : Text) → read_from 0 (written t) ≡ t
unfolding written read_from
read-written [] = refl
read-written (n ∷ t) = read_from-letters 0 n (written t) ∙ ground (arith, read-written t)

abbrev environment : AuthEnv
environment = record {
  hashes = library;
  tokens = record { sign = λ body time. "token"; verify = λ token. none };
  to_lower = λ s. if s == "Ada" then "ada" else s;
  to_column = written;
  of_column = read_from 0;
  of_column-to_column = read-written;
}

unfoldable database : Db repositories
unfolding in_memory repositories
database = record {
  users = user "bob" ∷ [];
  projects = [];
  collaborators = [];
  invitations = [];
  friends = [];
  friend_requests = [];
  notices = [];
}

abbrev newcomer : RegisterDto
newcomer = record {
  username = "Ada";
  password = codes "secret";
  email = "ada@example.org";
  first_name = "Ada";
  last_name = "L";
}

login_after_register_example :
    LoggedIn environment repositories
      (record { username = "Ada"; password = codes "secret" })
      (register environment repositories (1 ∷ 2 ∷ []) newcomer database).1
unfolding in_memory repositories register database
login_after_register_example =
    login_after_register environment repositories (1 ∷ 2 ∷ []) newcomer database
      (record { username = "Ada"; email = "ada@example.org"; first_name = "Ada"; last_name = "L" })
      refl refl (omega arith) (λ p. (_, refl)) refl

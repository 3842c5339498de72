-- ===== src/Auth.antt =====
-- src/auth/auth.service.ts and src/auth/auth.middleware.ts: registering, logging in, and the user of a
-- request. A password is the list of its code units, as the hashes take it.
pub mod Login
mod Examples
use starsyncbackend.Prelude.{
  ℕ, String, Bool, true, false, not, List, [], ◌∷◌, Option, none, some, ◌==◌, ◌≡◌, is_some,
}
use starsyncbackend.Effect.{
  Effect, Result, ok, err, unauthorized, ◌>>=◌, ◌>>◌, pure, throw_if, query, found,
}
use starsyncbackend.Entities.{User, Repositories, Db}
use starsyncbackend.Jwt.{JwtLibrary, TokenBody, generate_token, verify}
use starsyncbackend.PasswordHash.{Text, Libraries, hash_password, check_password}

-- What the service uses: the libraries of the hashes and the tokens, `toLowerCase`, and how a text of
-- code units stands in a column of the database, which gives back what was written.
pub record AuthEnv : Type 0 where
  pub hashes : Libraries
  pub tokens : JwtLibrary
  pub to_lower : String → String
  pub to_column : Text → String
  pub of_column : String → Text
  pub of_column-to_column : (t : Text) → of_column (to_column t) ≡ t

pub record LoginDto : Type 0 where
  pub username : String
  pub password : Text

pub record RegisterDto : Type 0 where
  pub username : String
  pub password : Text
  pub email : String
  pub first_name : String
  pub last_name : String

pub record LoginReply : Type 0 where
  pub token : String
  pub user_id : String
  pub user_name : String
  pub first_name : String
  pub last_name : String

pub record RegisterReply : Type 0 where
  pub username : String
  pub email : String
  pub first_name : String
  pub last_name : String

module _ (e : AuthEnv) (r : Repositories) where
  abbrev pub find_user_by : (User → Bool) → Effect (Db r) (Option User)
  find_user_by p = query (λ s. r.users.find_one p s.users)

  abbrev pub insert_user : (String → ℕ → User) → Effect (Db r) User
  insert_user f s = elim (r.users.insert f s.users) [
    | ok (t, row) ↦ (ok row, record s { users = t })
    | err x ↦ (err x, s)
  ]

  -- `checkPassword`: the id of the user of this name, where the password is right.
  unfoldable pub check_user_password : String → Text → Effect (Db r) String
  check_user_password username password = do
    u ← find_user_by (λ u. u.username == username)
    user ← found u (unauthorized "User not found")
    throw_if (not (check_password e.hashes password (e.of_column user.password)))
        (unauthorized "Wrong password")
    pure user.id

  unfoldable pub login : LoginDto → Effect (Db r) LoginReply
  unfolding check_user_password
  login d = do
    user_id ← check_user_password (e.to_lower d.username) d.password
    throw_if (user_id == "") (unauthorized "Wrong password")
    u ← find_user_by (λ u. u.id == user_id)
    user ← found u (unauthorized "Wrong username")
    pure (record {
      token = generate_token e.tokens user_id d.username "1h";
      user_id = user_id;
      user_name = user.username;
      first_name = user.first_name;
      last_name = user.last_name;
    })

  -- The row of a new user; `draws` are the numbers drawn for the salt.
  abbrev pub new_user : List ℕ → RegisterDto → String → ℕ → User
  new_user draws d id at = record {
    id = id;
    username = e.to_lower d.username;
    email = d.email;
    password = e.to_column (hash_password e.hashes draws d.password);
    first_name = d.first_name;
    last_name = d.last_name;
  }

  unfoldable pub register : List ℕ → RegisterDto → Effect (Db r) RegisterReply
  register draws d = do
    u ← find_user_by (λ u. u.username == d.username)
    throw_if (is_some u) (unauthorized "Username exist")
    v ← find_user_by (λ u. u.email == d.email)
    throw_if (is_some v) (unauthorized "Email exist")
    insert_user (new_user draws d)
    pure (record {
      username = d.username;
      email = d.email;
      first_name = d.first_name;
      last_name = d.last_name;
    })

-- `use` of the middleware: the user of a request with this header, whose text without `Bearer ` is the
-- token.
unfoldable pub user_of_request : JwtLibrary → (String → String) → Option String → Result TokenBody
user_of_request l without_bearer none = err (unauthorized "")
user_of_request l without_bearer (some header) =
    let token = without_bearer header in
    elim (token == "") [
      | true ↦ err (unauthorized "")
      | false ↦ elim (verify l token) [ none ↦ err (unauthorized "") | some user ↦ ok user ]
    ]

-- ===== src/Auth/Login.antt =====
-- Who may log in after a registration, by src/auth/auth.service.ts.
use starsyncbackend.Prelude.{
  ℕ, ◌≤◌, String, Bool, true, false, ◌&&◌, List, Option, none, some, ◌==◌, ◌≡◌, refl, sym, ap, ◌∙◌,
  inl, inr, arith, eq_iff, eq_refl, Bool-cases, Option-cases, length,
}
use starsyncbackend.Effect.{ok, Result-cases}
use starsyncbackend.Entities.{User, Repositories, Db}
use starsyncbackend.Jwt.{generate_token}
use starsyncbackend.PasswordHash.{check_password, hash_password}
use starsyncbackend.PasswordHash.Check.{check_password-hash_password}
use starsyncbackend.Auth.{
  AuthEnv, LoginDto, RegisterDto, RegisterReply, LoginReply, login, new_user, register,
}
use starsyncbackend.Database.Rows.{only_row}

module _ (e : AuthEnv) (r : Repositories) where
  -- The row that a registration has added, where it returned.
  record Registered (draws : List ℕ) (d : RegisterDto) (s s' : Db r) : Type 0 where
    table : r.users.Table
    row : User
    added : r.users.insert (new_user e r draws d) s.users ≡ ok (table, row)
    after : s' ≡ record s { users = table }

  register-Registered :
      (draws : List ℕ) (d : RegisterDto) (s : Db r) (reply : RegisterReply)
      → (register e r draws d s).0 ≡ ok reply
      → Registered draws d s (register e r draws d s).1
  unfolding register
  register-Registered draws d s reply done =
      elim (Result-cases (r.users.find_one (λ u. u.username == d.username) s.users)) [
        | inr (x, e1) ↦ absurd (ground (arith, e1, done))
        | inl (some u, e1) ↦ absurd (ground (arith, e1, done))
        | inl (none, e1) ↦
            elim (Result-cases (r.users.find_one (λ u. u.email == d.email) s.users)) [
              | inr (x, e2) ↦ absurd (ground (arith, e1, e2, done))
              | inl (some u, e2) ↦ absurd (ground (arith, e1, e2, done))
              | inl (none, e2) ↦
                  elim (Result-cases (r.users.insert (new_user e r draws d) s.users)) [
                    | inr (x, e3) ↦ absurd (ground (arith, e1, e2, e3, done))
                    | inl ((t, row), e3) ↦ record {
                      table = t;
                      row = row;
                      added = e3;
                      after = ground (arith, e1, e2, e3);
                    }
                  ]
            ]
      ]

  -- The reply to a login, from the row of the name and the row of its id.
  abbrev reply_of : String → User → User → LoginReply
  reply_of username u v = record {
    token = generate_token e.tokens u.id username "1h";
    user_id = u.id;
    user_name = v.username;
    first_name = v.first_name;
    last_name = v.last_name;
  }

  login-run :
      (d : LoginDto) (s : Db r) (u v : User)
      → r.users.find_one (λ x. x.username == e.to_lower d.username) s.users ≡ ok (some u)
      → check_password e.hashes d.password (e.of_column u.password) ≡ true
      → (u.id == "") ≡ false
      → r.users.find_one (λ x. x.id == u.id) s.users ≡ ok (some v)
      → login e r d s ≡ (ok (reply_of d.username u v), s)
  unfolding login
  login-run d s u v e1 e2 e3 e4 = ground (arith, e1, e2, e3, e4)

  -- What a login leaves: its reply, and the one row of the name.
  pub record LoggedIn (d : LoginDto) (s : Db r) : Type 0 where
    pub reply : LoginReply
    pub returns : login e r d s ≡ (ok reply, s)
    pub token : reply.token ≡ generate_token e.tokens reply.user_id d.username "1h"
    pub one :
        r.users.count (λ u. u.username == e.to_lower d.username && u.id == reply.user_id) s.users
        ≡ 1

  module _ (draws : List ℕ) (d : RegisterDto) (s s' : Db r) where
    abbrev named : User → Bool
    named u = u.username == e.to_lower d.username

    abbrev credentials : LoginDto
    credentials = record { username = d.username; password = d.password }

    -- The row that is found by the new name is like the row that was added.
    found_row :
        (q : User → Bool) (made : Registered draws d s s') (u : User)
        → r.users.count named s.users ≡ 0
        → q made.row ≡ true
        → r.users.find_one named s'.users ≡ ok (some u)
        → q u ≡ true
    found_row q made u alone same is_found =
        only_row r.users (new_user e r draws d) named q s.users made.table made.row u alone
          made.added same
          (sym (ap (λ (x : Db r). r.users.find_one named x.users) made.after) ∙ is_found)

    one_named :
        (q : User → Bool) (made : Registered draws d s s')
        → r.users.count named s.users ≡ 0
        → q made.row ≡ true
        → r.users.count (λ u. named u && q u) s'.users ≡ 1
    one_named q made alone same =
        let both : User → Bool = λ u. named u && q u in
        let (id, at, row) =
          r.users.insert-row (new_user e r draws d) s.users made.table made.row made.added in
        let more =
          r.users.count-insert (new_user e r draws d) both s.users made.table made.row made.added in
        let fewer = r.users.count_mono both named s.users (λ x h. ground (arith, h)) in
        let here : named made.row ≡ true = ap named row ∙ eq_refl (e.to_lower d.username) in
        ap (λ (x : Db r). r.users.count both x.users) made.after
        ∙ ground (arith, more, fewer, alone, same, here)

    right_password : User → Bool
    right_password u = check_password e.hashes d.password (e.of_column u.password)

    row-right_password :
        (made : Registered draws d s s') → length d.password ≤ 4096 → right_password made.row ≡ true
    unfolding right_password
    row-right_password made short =
        let (id, at, row) =
          r.users.insert-row (new_user e r draws d) s.users made.table made.row made.added in
        ap right_password row
        ∙ ap (check_password e.hashes d.password)
            (e.of_column-to_column (hash_password e.hashes draws d.password))
        ∙ (check_password-hash_password e.hashes draws d.password short).0

    -- A row that is found has an id, where no row is without one.
    id-found :
        (p : User → Bool) (u : User)
        → r.users.find_one p s'.users ≡ ok (some u)
        → r.users.count (λ x. x.id == "") s'.users ≡ 0
        → (u.id == "") ≡ false
    id-found p u is_found no_empty = elim (Bool-cases (u.id == "")) [
      | inr differs ↦ differs
      | inl empty ↦ absurd (
          ground (
            arith,
            no_empty,
            (r.users.find_one-some p s'.users u is_found).1 (λ x. x.id == "") empty,
          ))
    ]

    found_logs_in :
        (made : Registered draws d s s') (u : User)
        → r.users.count named s.users ≡ 0
        → length d.password ≤ 4096
        → ((p : User → Bool) → (o : Option User) × (r.users.find_one p s'.users ≡ ok o))
        → r.users.count (λ u. u.id == "") s'.users ≡ 0
        → r.users.find_one named s'.users ≡ ok (some u)
        → LoggedIn credentials s'
    unfolding right_password
    found_logs_in made u alone short answers no_empty is_found =
        let right =
          found_row right_password made u alone (row-right_password made short) is_found in
        let same_id : (u.id == made.row.id) ≡ true =
          found_row (λ x. x.id == made.row.id) made u alone (eq_refl made.row.id) is_found in
        let has_id = id-found named u is_found no_empty in
        let (o, e2) = answers (λ x. x.id == u.id) in
        elim (Option-cases o) [
          | inl n ↦ absurd (
              ground (
                arith,
                r.users.find_one-none (λ x. x.id == u.id) s'.users (e2 ∙ ap (λ x. ok x) n),
                (r.users.find_one-some named s'.users u is_found).1 (λ x. x.id == u.id)
                    (eq_refl u.id),
              ))
          | inr (v, n) ↦ record {
            reply = reply_of d.username u v;
            returns = login-run credentials s' u v is_found right has_id (e2 ∙ ap (λ x. ok x) n);
            token = refl;
            one =
                one_named (λ x. x.id == u.id) made alone
                  (ap (λ x. x == u.id) (sym ((eq_iff u.id made.row.id).0 same_id)) ∙ eq_refl u.id);
          }
        ]

    can_log_in :
        Registered draws d s s'
        → r.users.count named s.users ≡ 0
        → length d.password ≤ 4096
        → ((p : User → Bool) → (o : Option User) × (r.users.find_one p s'.users ≡ ok o))
        → r.users.count (λ u. u.id == "") s'.users ≡ 0
        → LoggedIn credentials s'
    can_log_in made alone short answers no_empty =
        let (o, e1) = answers named in
        elim (Option-cases o) [
          | inr (u, n) ↦ found_logs_in made u alone short answers no_empty (e1 ∙ ap (λ x. ok x) n)
          | inl n ↦
              let one = one_named (λ x. x.id == made.row.id) made alone (eq_refl made.row.id) in
              let fewer =
                r.users.count_mono (λ x. named x && x.id == made.row.id) named s'.users
                  (λ x h. ground (arith, h)) in
              absurd (
                ground
                  (arith, one, fewer, r.users.find_one-none named s'.users (e1 ∙ ap (λ x. ok x) n)))
        ]

  -- When a registration returns, of a name that no user had in lower case, with a password of at
  -- most 4096 code units, and the database then answers every query for a user and has no user
  -- whose id is empty, the name and the password of the registration log in: login changes nothing
  -- and replies with a token for the name and the id of the one user who has that name in lower
  -- case.
  pub login_after_register :
      (draws : List ℕ) (d : RegisterDto) (s : Db r) (reply : RegisterReply)
      → (register e r draws d s).0 ≡ ok reply
      → r.users.count (λ u. u.username == e.to_lower d.username) s.users ≡ 0
      → length d.password ≤ 4096
      → ((p : User → Bool)
          → (o : Option User) × (r.users.find_one p (register e r draws d s).1.users ≡ ok o))
      → r.users.count (λ u. u.id == "") (register e r draws d s).1.users ≡ 0
      → LoggedIn
          (record { username = d.username; password = d.password })
          (register e r draws d s).1
  login_after_register draws d s reply done =
      can_log_in draws d s (register e r draws d s).1 (register-Registered draws d s reply done)

-- ===== src/UserService.antt =====
-- src/user/user.service.ts: the search for users. A page below 1, a limit of 0 and numbers that are not
-- whole are left out, as are the times at which users were made.
pub mod Strangers
mod Examples
use Prim.Native.String.{◌++◌ as concat}
use starsyncbackend.Prelude.{
  ℕ, ◌+◌, ◌-◌, ◌*◌, ◌/◌, String, Bool, true, false, not, ◌||◌, ◌&&◌, ◌==◌, ◌≡◌, if◌then◌else◌, List,
  [], ◌∷◌, ◌++◌, Option, length, map, filter, count, ltb,
}
use starsyncbackend.Effect.{Effect, Result, ok, err, ◌>>=◌, pure, query}
use starsyncbackend.JsSet
use starsyncbackend.Entities.{User, Friend, Repositories, Db}

-- `trim`, `LIKE` of SQL, and `getManyAndCount`: of the users that pass a test, in the order of their
-- names, with how many to skip and to take.
pub record UserSearch (r : Repositories) : Type 0 where
  pub trim : String → String
  pub like : String → String → Bool
  pub page_of : (User → Bool) → ℕ → ℕ → r.users.Table → Result (List User × ℕ)
  pub page_of-tested :
      (p : User → Bool) (skip take : ℕ) (t : r.users.Table) (rows : List User) (total : ℕ)
      → page_of p skip take t ≡ ok (rows, total)
      → count (λ u. not (p u)) rows ≡ 0

pub record FoundUser : Type 0 where
  pub id : String
  pub username : String
  pub email : String
  pub first_name : String
  pub last_name : String

pub record SearchReply : Type 0 where
  pub users : List FoundUser
  pub total : ℕ
  pub page : ℕ
  pub total_pages : ℕ
  pub has_more : Bool

abbrev pub no_users : ℕ → SearchReply
no_users page = record { users = []; total = 0; page = page; total_pages = 0; has_more = false }

abbrev pub found_user : User → FoundUser
found_user u = record {
  id = u.id;
  username = u.username;
  email = u.email;
  first_name = u.first_name;
  last_name = u.last_name;
}

-- `forEach((f) => friendIds.add(...))`
unfoldable pub add_each : (Friend → String) → List Friend → List String → List String
add_each f [] ids = ids
add_each f (x ∷ xs) ids = add_each f xs (JsSet.add (f x) ids)

module _ (r : Repositories) (e : UserSearch r) where
  unfoldable pub friend_ids : String → Effect (Db r) (List String)
  unfolding add_each
  friend_ids current = do
    friends1 ← query (λ s. r.friends.find_many (λ f. f.user1 == current) s.friends)
    friends2 ← query (λ s. r.friends.find_many (λ f. f.user2 == current) s.friends)
    pure (add_each (λ f. f.user1) friends2 (add_each (λ f. f.user2) friends1 []))

  abbrev pub no_ids : Effect (Db r) (List String)
  no_ids = pure []

  -- The reply made of a page of rows and their number in all.
  unfoldable pub reply_of : ℕ → ℕ → Bool → List String → List User → ℕ → SearchReply
  reply_of page limit exclude_friends ids rows total =
      let kept = filter (λ (u : User). not exclude_friends || not (JsSet.has u.id ids)) rows in
      record {
        users = map found_user kept;
        total = if exclude_friends then length kept else total;
        page = page;
        total_pages = (total + (limit - 1)) / limit;
        has_more = ltb ((page - 1) * limit + length kept) total;
      }

  -- `where` and `andWhere`
  unfoldable pub matches : String → String → User → Bool
  matches current term u =
      not (u.id == current)
      && (e.like u.username term
          || e.like u.email term
          || e.like u.first_name term
          || e.like u.last_name term)

  unfoldable pub search_users : String → String → ℕ → ℕ → Bool → Effect (Db r) SearchReply
  unfolding friend_ids reply_of matches
  search_users current text page limit exclude_friends =
      if e.trim text == "" then pure (no_users page) else do
        (rows, total) ← query (λ s.
            e.page_of (matches current (concat "%" (concat (e.trim text) "%"))) ((page - 1) * limit)
              limit s.users)
        ids ← if exclude_friends then friend_ids current else no_ids
        pure (reply_of page limit exclude_friends ids rows total)

-- ===== src/Jwt.antt =====
-- src/libs/services/jwt.service.ts: tokens over the library jsonwebtoken, which is a parameter. The
-- secret and the issuer are the library's: a service has one of each.
use starsyncbackend.Prelude.{String, Option, none, some}
use starsyncbackend.Json.{Json, str, obj, field, end, members}

-- `jwt.sign` with the secret, a payload and how long it holds, and `jwt.verify` with the secret, `none`
-- where it throws.
pub record JwtLibrary : Type 0 where
  pub sign : Json → String → String
  pub verify : String → Option Json

pub record TokenBody : Type 0 where
  pub user_id : Json
  pub username : Json

unfoldable pub generate_token : JwtLibrary → String → String → String → String
generate_token l user_id username expires_in =
    l.sign (obj (field "user_id" (str user_id) (field "username" (str username) end))) expires_in

-- `verify`: `null` where the library throws, or the body that it returns has no properties.
unfoldable pub verify : JwtLibrary → String → Option TokenBody
verify l token = elim (l.verify token) [
  | none ↦ none
  | some body ↦ elim (members body) [
    | none ↦ none
    | some q ↦ some (record { user_id = q "user_id"; username = q "username" })
  ]
]

-- ===== src/Auth.antt =====
-- src/auth: the tokens of jwt.ts and the passwords of basic.ts. The packages jsonwebtoken and bcrypt,
-- and the server's method `getUser`, are an interface.
pub mod Tokens
pub mod Access
pub mod Tests
use liquidator.Base.{
  ℕ, String, ◌+◌, ◌<◌, ◌≡◌, Bool, true, false, Option, none, some, List, ◌==◌, if◌then◌else◌,
}
use liquidator.Base.Results.{Result, ok, err, type_error, ◌>>=◌}

-- `TokenPurpose`
pub data TokenPurpose : Type 0 where
  access refresh : TokenPurpose

abbrev pub purpose_code : TokenPurpose → ℕ
purpose_code access = 0
purpose_code refresh = 1

-- `===` on purposes.
abbrev pub purpose_eq : TokenPurpose → TokenPurpose → Bool
purpose_eq a b = purpose_code a == purpose_code b

-- What a token says: the data that it was created from, and its purpose.
pub record Claims : Type 0 where
  pub email : Option String
  pub purpose : Option TokenPurpose

-- The package jsonwebtoken, at a time. `verify` gives its callback what it decoded, or nothing; it may
-- throw. What was signed with a secret is decoded with it, until its lifetime is over.
pub record Jwt : Type 1 where
  pub Token : Type 0
  pub sign : Claims → Option String → ℕ → ℕ → Result Token
  pub verify : Token → Option String → ℕ → Result (Option Claims)
  pub verify-sign :
      (claims : Claims) (secret : String) (lifetime signed_at now : ℕ) (token : Token)
      → sign claims (some secret) lifetime signed_at ≡ ok token
      → now < signed_at + lifetime
      → verify token (some secret) now ≡ ok (some claims)

-- `TokenVerifyResult`
pub record TokenVerifyResult : Type 0 where
  pub is_valid : Bool
  pub decoded : Option Claims

-- `AuthenticationData`: no user stands for the empty credentials.
pub record AuthenticationData (User : Type 0) : Type 0 where
  pub is_valid : Bool
  pub credentials : Option User

-- `TokenOptions`
pub record TokenOptions : Type 0 where
  pub purpose : TokenPurpose
  pub lifetime : ℕ

-- The body of the callback of `verifyToken`.
unfoldable pub check_purpose : TokenPurpose → Option Claims → TokenVerifyResult
check_purpose purpose none = record { is_valid = false; decoded = none }
check_purpose purpose (some claims) = elim (claims.purpose) [
  | none ↦ record { is_valid = false; decoded = none }
  | some p ↦
      if purpose_eq purpose p
      then record { is_valid = true; decoded = some claims }
      else record { is_valid = false; decoded = none }
]

module _ {User : Type 0} (get_user : Option String → Result (Option User)) where
  -- What `validateToken` and `validateRefreshToken` do with the result.
  unfoldable pub authenticate : TokenVerifyResult → Result (AuthenticationData User)
  authenticate r =
      if r.is_valid
      then elim (r.decoded) [
        | none ↦ err type_error
        | some claims ↦ get_user claims.email >>= λ user.
            ok (record { is_valid = r.is_valid; credentials = user })
      ]
      else ok (record { is_valid = true; credentials = none })

module _ (jwt : Jwt) where
  open jwt use {Token, sign, verify}

  -- `createToken`: the purpose is added to the data.
  unfoldable pub create_token : Claims → TokenOptions → Option String → ℕ → Result Token
  create_token data_of options secret now =
      sign (record data_of { purpose = some options.purpose }) secret options.lifetime now

  -- `verifyToken`
  unfoldable pub verify_token : Token → TokenPurpose → Option String → ℕ → Result TokenVerifyResult
  verify_token token purpose secret now =
      verify token secret now >>= λ decoded. ok (check_purpose purpose decoded)

  module _ {User : Type 0} (get_user : Option String → Result (Option User)) where
    -- `validateToken`, and `validateRefreshToken`, which call `verifyToken` without a secret.
    unfoldable pub validate_token : Token → ℕ → Result (AuthenticationData User)
    validate_token token now = verify_token token access none now >>= authenticate get_user

    unfoldable pub validate_refresh_token : Token → ℕ → Result (AuthenticationData User)
    validate_refresh_token token now = verify_token token refresh none now >>= authenticate get_user

-- `validate` of basic.ts; `hash` is bcrypt's, and `get_user` finds a user by name and hash.
unfoldable pub validate :
    {User : Type 0}
    → (String → Result String)
    → (String → String → Result (Option User))
    → String
    → String
    → Result (AuthenticationData User)
validate hash get_user username password = hash password >>= λ hashed_password.
    get_user username hashed_password >>= λ found. ok (elim found [
      | none ↦ record { is_valid = false; credentials = none }
      | some user ↦ record { is_valid = true; credentials = some user }
    ])

-- ===== src/Auth/Access.antt =====
-- Who gets in.
use liquidator.Base.{ℕ, String, ◌≡◌, refl, Bool, true, false, Option, none, some, if◌then◌else◌}
use liquidator.Base.Results.{Result, ok, err, type_error, ◌>>=◌}
use liquidator.Auth.{
  access, refresh, Claims, Jwt, TokenVerifyResult, AuthenticationData, verify_token, authenticate,
  validate_token, validate_refresh_token,
}

-- It throws, or reports the token as valid.
abbrev pub ReturnsValid : {User : Type 0} → Result (AuthenticationData User) → Type 0
ReturnsValid (err e) = Unit
ReturnsValid (ok a) = a.is_valid ≡ true

module _ {User : Type 0} (get_user : Option String → Result (Option User)) where
  authenticate-ReturnsValid : (r : TokenVerifyResult) → ReturnsValid (authenticate get_user r)
  unfolding authenticate
  authenticate-ReturnsValid r = by_valid r.is_valid refl
    where
      known :
          (found : Result (Option User))
          → r.is_valid ≡ true
          → ReturnsValid
              (found >>= λ user. ok (record { is_valid = r.is_valid; credentials = user }))
      known (err e) h = tt
      known (ok user) h = h

      by_claims :
          (o : Option Claims)
          → r.is_valid ≡ true
          → ReturnsValid {User = User} (elim o [
            | none ↦ err type_error
            | some claims ↦ get_user claims.email >>= λ user.
                ok (record { is_valid = r.is_valid; credentials = user })
          ])
      by_claims none h = tt
      by_claims (some claims) h = known (get_user claims.email) h

      by_valid :
          (b : Bool)
          → r.is_valid ≡ b
          → ReturnsValid {User = User} (
              if b
              then elim (r.decoded) [
                | none ↦ err type_error
                | some claims ↦ get_user claims.email >>= λ user.
                    ok (record { is_valid = r.is_valid; credentials = user })
              ]
              else ok (record { is_valid = true; credentials = none }))
      by_valid false h = refl
      by_valid true h = by_claims r.decoded h

  followed-ReturnsValid :
      (verified : Result TokenVerifyResult) → ReturnsValid (verified >>= authenticate get_user)
  followed-ReturnsValid (err e) = tt
  followed-ReturnsValid (ok r) = authenticate-ReturnsValid r

module _ (jwt : Jwt) {User : Type 0} (get_user : Option String → Result (Option User)) where
  -- Whatever the token is, forged, out of date or no token at all: `validateToken` and
  -- `validateRefreshToken` report it as valid, unless they throw.
  pub every_token_valid :
      (token : jwt.Token) (now : ℕ)
      → ReturnsValid (validate_token jwt get_user token now)
        × ReturnsValid (validate_refresh_token jwt get_user token now)
  unfolding validate_token validate_refresh_token
  every_token_valid token now = (
    followed-ReturnsValid get_user (verify_token jwt token access none now),
    followed-ReturnsValid get_user (verify_token jwt token refresh none now),
  )

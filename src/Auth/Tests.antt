-- ===== src/Auth/Tests.antt =====
-- Tokens in memory: a token is what was signed, with the secret and the time at which it ends.
use liquidator.Base.{
  ℕ, String, ◌+◌, ◌<◌, ◌≡◌, refl, subst, true, Option, none, some, ◌&&◌, ltb, str_eq, str_eq_iff,
  arith, if◌then◌else◌,
}
use liquidator.Base.Results.{Result, ok}
use liquidator.Auth.{
  access, Claims, Jwt, check_purpose, authenticate, create_token, verify_token, validate_token,
  validate_refresh_token,
}
use liquidator.Auth.Tokens.{verify_token-create_token}
use liquidator.Auth.Access.{ReturnsValid, every_token_valid}

abbrev Signed : Type 0
Signed = Claims × Option String × ℕ

abbrev decode : Signed → Option String → ℕ → Result (Option Claims)
decode (claims, none, ends) secret now = ok none
decode (claims, some k, ends) none now = ok none
decode (claims, some k, ends) (some secret) now =
    if str_eq k secret && ltb now ends then ok (some claims) else ok none

decode_lem :
    (claims : Claims) (secret : String) (lifetime signed_at now : ℕ) (token : Signed)
    → ok (claims, some secret, signed_at + lifetime) ≡ ok token
    → now < signed_at + lifetime
    → decode token (some secret) now ≡ ok (some claims)
decode_lem claims secret lifetime signed_at now token e fresh =
    let same : (claims, some secret, signed_at + lifetime) ≡ token = cc in
    let key : str_eq secret secret ≡ true = (str_eq_iff secret secret).1 refl in
    let in_time : ltb now (signed_at + lifetime) ≡ true = ground arith in
    subst (λ (t : Signed). decode t (some secret) now ≡ ok (some claims)) same
      (rw (key, in_time) refl)

abbrev signed : Jwt
signed = record {
  Token = Signed;
  sign = λ claims secret lifetime now. ok (claims, secret, now + lifetime);
  verify = decode;
  verify-sign = decode_lem;
}

abbrev data_of : Claims
data_of = record { email = some "a@b"; purpose = none }

abbrev token : Signed
token = (record { email = some "a@b"; purpose = some access }, some "key", 15)

verify_token-create_token_example :
    verify_token signed token access (some "key") 9
    ≡ ok (record { is_valid = true; decoded = some (record data_of { purpose = some access }) })
unfolding create_token
verify_token-create_token_example =
    verify_token-create_token signed data_of (record { purpose = access; lifetime = 10 }) access
      "key" token 5 9 refl (omega arith)

abbrev get_user : Option String → Result (Option String)
get_user email = ok email

-- The token has ended, and there is no secret to verify it with: it lets its bearer in.
every_token_valid_example :
    ReturnsValid (validate_token signed get_user token 99)
    × ReturnsValid (validate_refresh_token signed get_user token 99)
every_token_valid_example = every_token_valid signed get_user token 99

no_user :
    validate_token signed get_user token 99 ≡ ok (record { is_valid = true; credentials = none })
unfolding validate_token verify_token check_purpose authenticate
no_user = refl

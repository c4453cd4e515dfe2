-- ===== src/Auth/Tokens.antt =====
-- A token that was created is verified.
use liquidator.Base.{ℕ, String, ◌+◌, ◌<◌, ◌≡◌, refl, true, false, none, some, if◌then◌else◌}
use liquidator.Base.Results.{ok}
use liquidator.Auth.{
  TokenPurpose, purpose_eq, Claims, Jwt, TokenOptions, check_purpose, create_token, verify_token,
}

module _ (jwt : Jwt) where
  -- A token that `createToken` made with a secret is verified with the same secret, as long as its
  -- lifetime lasts: for its own purpose it is valid and decodes to its data with the purpose, and for
  -- the other purpose it is not valid.
  pub verify_token-create_token :
      (data_of : Claims) (options : TokenOptions) (purpose : TokenPurpose) (secret : String)
      (token : jwt.Token) (created_at now : ℕ)
      → create_token jwt data_of options (some secret) created_at ≡ ok token
      → now < created_at + options.lifetime
      → verify_token jwt token purpose (some secret) now
        ≡ ok (
            if purpose_eq purpose options.purpose
            then record {
              is_valid = true;
              decoded = some (record data_of { purpose = some options.purpose });
            }
            else record { is_valid = false; decoded = none })
  unfolding create_token verify_token check_purpose
  verify_token-create_token data_of options purpose secret token created_at now made fresh =
      let claims : Claims = record data_of { purpose = some options.purpose } in
      rw (jwt.verify-sign claims secret options.lifetime created_at now token made fresh) refl

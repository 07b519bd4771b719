-- ===== src/Oidc/Claims/Release.antt =====
-- Which of a user's data a client is given, and how long a token is good for.
use schlass.Base.{ℕ, ◌+◌, ◌*◌, ◌≡◌, refl, String, arith, All, IsWord, fields}
use schlass.Store.Tables.{User}
use schlass.Oidc.Scopes.{Scopes}
use schlass.Oidc.Scopes.Words.{fields-to_string}
use schlass.Oidc.Claims.{second, build_access_claims, build_id_claims, build_user_info_claims}

-- What /userinfo answers for an access token is what the ID token that was issued with it says of the user:
-- the subject, the user name, the time of update, the email and whether it is verified.
pub userinfo-agrees_with_id_token :
    (user : User) (client_id issuer jti jti' nonce : String) (scopes : Scopes)
    (auth_time now ttl : ℕ)
    → All IsWord scopes
    → let info =
        build_user_info_claims user
          (fields (build_access_claims user client_id issuer jti scopes now ttl).scope) in
      let id = build_id_claims user client_id issuer jti' nonce scopes auth_time now ttl in
      (info.sub ≡ id.subject)
      × (info.preferred_username ≡ id.preferred_username)
      × (info.updated_at ≡ id.updated_at)
      × (info.email ≡ id.email)
      × (info.email_verified ≡ id.email_verified)
unfolding build_access_claims build_id_claims build_user_info_claims
userinfo-agrees_with_id_token user client_id issuer jti jti' nonce scopes auth_time now ttl h =
    rw (fields-to_string scopes h) (ground arith)

-- An access token that is good for a whole number of seconds expires that many seconds after the second in
-- which it was issued, and is valid from that second on.
pub build_access_claims_lifetime :
    (user : User) (client_id issuer jti : String) (scopes : Scopes) (now secs : ℕ)
    → let c = build_access_claims user client_id issuer jti scopes now (secs * second) in
      (c.expires ≡ c.issued_at + secs) × (c.not_before ≡ c.issued_at)
unfolding build_access_claims
build_access_claims_lifetime user client_id issuer jti scopes now secs = (omega arith, refl)

-- ===== src/Oidc/Claims.antt =====
-- internal/oidc/claims.go: the claims of access tokens, ID tokens and /userinfo.
pub mod Release
use schlass.Base.{ℕ, ◌+◌, ◌/◌, Bool, true, Option, none, some, String, if◌then◌else◌}
use schlass.Store.Tables.{User}
use schlass.Oidc.Scopes.{Scopes, has, to_string}

-- time.Time.Unix, and time.Second as a number of nanoseconds.
abbrev pub second : ℕ
second = 1_000_000_000

abbrev pub unix : ℕ → ℕ
unix t = t / second

pub record AccessTokenClaims : Type 0 where
  pub issuer : String
  pub subject : String
  pub audience : String
  pub issued_at : ℕ
  pub not_before : ℕ
  pub expires : ℕ
  pub jti : String
  pub scope : String

pub record IdTokenClaims : Type 0 where
  pub issuer : String
  pub subject : String
  pub audience : String
  pub issued_at : ℕ
  pub not_before : ℕ
  pub expires : ℕ
  pub jti : String
  pub auth_time : ℕ
  pub nonce : String
  pub preferred_username : String
  pub updated_at : ℕ
  pub email : String
  pub email_verified : Option Bool

pub record UserInfoClaims : Type 0 where
  pub sub : String
  pub preferred_username : String
  pub updated_at : ℕ
  pub email : String
  pub email_verified : Option Bool

unfoldable pub build_access_claims :
    User → (client_id issuer jti : String) → Scopes → (now ttl : ℕ) → AccessTokenClaims
build_access_claims user client_id issuer jti scopes now ttl = record {
  issuer = issuer;
  subject = user.id;
  audience = client_id;
  issued_at = unix now;
  not_before = unix now;
  expires = unix (now + ttl);
  jti = jti;
  scope = to_string scopes;
}

with_profile : User → IdTokenClaims → IdTokenClaims
with_profile user c = record c {
  preferred_username = user.email;
  updated_at = unix user.updated_at;
}

with_email : User → IdTokenClaims → IdTokenClaims
with_email user c = record c { email = user.email; email_verified = some true }

unfoldable pub build_id_claims :
    User → (client_id issuer jti nonce : String) → Scopes → (auth_time now ttl : ℕ) → IdTokenClaims
unfolding with_profile with_email
build_id_claims user client_id issuer jti nonce scopes auth_time now ttl =
    let c : IdTokenClaims = record {
      issuer = issuer;
      subject = user.id;
      audience = client_id;
      issued_at = unix now;
      not_before = unix now;
      expires = unix (now + ttl);
      jti = jti;
      auth_time = unix auth_time;
      nonce = nonce;
      preferred_username = "";
      updated_at = 0;
      email = "";
      email_verified = none;
    } in
    let d = if has scopes "profile" then with_profile user c else c in
    if has scopes "email" then with_email user d else d

unfoldable pub build_user_info_claims : User → Scopes → UserInfoClaims
build_user_info_claims user scopes =
    let c : UserInfoClaims = record {
      sub = user.id;
      preferred_username = "";
      updated_at = 0;
      email = "";
      email_verified = none;
    } in
    let d =
      if has scopes "profile"
      then record c { preferred_username = user.email; updated_at = unix user.updated_at }
      else c in
    if has scopes "email" then record d { email = user.email; email_verified = some true } else d

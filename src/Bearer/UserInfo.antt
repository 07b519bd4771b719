-- ===== src/Bearer/UserInfo.antt =====
-- UserInfoHandler of internal/authserver/userinfo.go.
use schlass.Base.{
  ℕ, ◌/◌, ap, true, contains, Bool-cases, inl, inr, ◌≡◌, refl, Bool, Option, none, some, ◌∷◌,
  String, if◌then◌else◌, All, fields, IsWord,
}
use schlass.Store.Tables.{Entry, Db, User}
use schlass.Oidc.Scopes.{Scopes}
use schlass.Oidc.Scopes.Words.{fields-to_string}
use schlass.Oidc.Claims.{
  second, AccessTokenClaims, UserInfoClaims, build_access_claims, build_user_info_claims,
}

pub data InfoReply : Type 0 where
  internal_error : InfoReply
  info : UserInfoClaims → InfoReply

abbrev pub accessed : (ip : String) → User → AccessTokenClaims → Entry
accessed ip user claims = record {
  event_type = "oidc.userinfo.accessed";
  actor_id = some user.id;
  actor_email = user.email;
  target_type = "client";
  target_id = claims.audience;
  client_id = none;
  ip_address = ip;
  outcome = "success";
  family_id = none;
}

-- The audit, whose failure is dropped, and the claims that the scopes of the token release. The user and the claims are
-- those of the context, where BearerAuth has put them.
unfoldable pub handle_userinfo :
    (audit_fails : Bool) (ip : String)
    → Option User
    → Option AccessTokenClaims
    → Db
    → Db × InfoReply
handle_userinfo audit_fails ip none claims db = (db, internal_error)
handle_userinfo audit_fails ip (some user) none db = (db, internal_error)
handle_userinfo audit_fails ip (some user) (some claims) db = (
  if audit_fails then db else record db { audit_logs = accessed ip user claims ∷ db.audit_logs },
  info (build_user_info_claims user (fields claims.scope)),
)

-- What scopes release of a user, claim by claim.
abbrev pub released : User → Scopes → UserInfoClaims
released user scopes = record {
  sub = user.id;
  preferred_username = if contains scopes "profile" then user.email else "";
  updated_at = if contains scopes "profile" then user.updated_at / second else 0;
  email = if contains scopes "email" then user.email else "";
  email_verified = if contains scopes "email" then some true else none;
}

build_user_info_claims-released :
    (user : User) (scopes : Scopes) → build_user_info_claims user scopes ≡ released user scopes
unfolding build_user_info_claims
build_user_info_claims-released user scopes = elim (Bool-cases (contains scopes "profile")) [
  | inl profile ↦ elim (Bool-cases (contains scopes "email")) [
    | inl mail ↦ rw (profile, mail) refl
    | inr no_mail ↦ rw (profile, no_mail) refl
  ]
  | inr no_profile ↦ elim (Bool-cases (contains scopes "email")) [
    | inl mail ↦ rw (no_profile, mail) refl
    | inr no_mail ↦ rw (no_profile, no_mail) refl
  ]
]

-- For the claims of an access token that was built for scopes without white space, /userinfo answers with the id of the
-- user, as the row now is; with the email as user name, and the time of update in seconds, exactly if profile is one of the
-- scopes; and with the email, marked as verified, exactly if email is one of them.
pub handle_userinfo-build_access_claims :
    (audit_fails : Bool) (ip : String) (user issued_to : User) (client_id issuer jti : String)
    (scopes : Scopes) (now ttl : ℕ) (db : Db)
    → All IsWord scopes
    → (handle_userinfo audit_fails ip
        (some user)
        (some (build_access_claims issued_to client_id issuer jti scopes now ttl))
        db).1
      ≡ info (released user scopes)
unfolding handle_userinfo build_access_claims
handle_userinfo-build_access_claims audit_fails ip user issued_to client_id issuer jti scopes now
      ttl db words =
    rw (fields-to_string scopes words) (ap info (build_user_info_claims-released user scopes))

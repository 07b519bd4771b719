-- ===== src/Auth/Enrollment.antt =====
-- The enrollment of internal/auth/mfa.go: resolveEnrollPrincipal and PostEnrollmentStart.
pub mod Verify
pub mod Complete
pub mod Stored
pub mod Guarantee
use schlass.Base.{
  ℕ, suc, ℤ, pos, negsuc, Bool, not, ◌||◌, Option, none, some, List, [], ◌∷◌, String, ◌==◌, ltb,
  nat_eq, length, if◌then◌else◌, byte_len, Result, ok, err, Outcome, next, reply, respond, give,
  ensure, value_or, ◌>>=◌, ◌>>◌,
}
use schlass.Store.Tables.{User}
use schlass.Valkey.Keys.{Session, enroll_key}
use schlass.Valkey.Server.{Valkey, found, missing, failed, del, expire}
use schlass.Valkey.Server
use schlass.Valkey.Hashes.{Hashes, txt}
use schlass.Oidc.Claims.{unix}
use schlass.Session.Store.{SessionError, get_session, create}
use schlass.Users.Store.{UserError, get_by_id, set_totp_enrolled, set_last_login_at}
use schlass.Auth.Totp.{validate_totp}
use schlass.Auth.RecoveryCodes
use schlass.Auth.Challenge.{cookie_value, nonempty, totp_secret_aad, invalid_code}
use schlass.Auth.Env.{
  Lib, Config, Env, user_query, fresh_query, mfa_query, name_query, totp_update, codes_insert,
  login_update, audit_insert, Reply, failure, enrollment_started, enrollment_verified, enrolled,
  user_dto, World,
}
use schlass.Auth.Steps.{
  internal_error, invalid_body, own_entry, is_enrolled, Step, begin_transaction, commit_transaction,
  log, set_users, user_or,
}

abbrev pub enroll_ttl : ℕ
enroll_ttl = 600

-- mfaEnrollContext. `by_token` is the cookie path, with its token; `by_session` the session path.
pub data Principal : Type 0 where
  by_token : (user_id email token : String) → Principal
  by_session : (user_id email : String) → Principal

abbrev pub id_of : Principal → String
id_of (by_token user_id email token) = user_id
id_of (by_session user_id email) = user_id

abbrev pub email_of : Principal → String
email_of (by_token user_id email token) = email
email_of (by_session user_id email) = email

-- The two errors of resolveEnrollPrincipal, as PostEnrollmentStart answers them.
abbrev pub no_enroll_auth : Reply
no_enroll_auth = failure 401 "MFA_ENROLLMENT_EXPIRED" "Enrollment session has expired."

abbrev pub already_enrolled : Reply
already_enrolled =
    failure 400 "MFA_ALREADY_ENROLLED" "This account already has two-factor authentication enabled."

abbrev pub start_again : Reply
start_again =
    failure 401 "MFA_ENROLLMENT_EXPIRED" "Enrollment session has expired — please start again."

abbrev pub issuer_or_default : String → String
issuer_or_default name = if name == "" then "Schlass" else name

module _ (K : Valkey) (H : Hashes K) (lib : Lib) (config : Config) (env : Env) where
  open lib use {parse_uuid, build_provision_uri}

  -- HSET of one field, where an error ends the request.
  abbrev pub put : String → String → String → Step K env (Unit {0})
  put token field value w =
      let (s, done) = H.hset (enroll_key token) ((field, txt value) ∷ []) w.kv in
      if done then (record w { kv = s }, next tt) else (record w { kv = s }, reply internal_error)

  -- HSET of one field, and EXPIRE, whose errors are only logged.
  abbrev pub put_best_effort : String → String → String → Step K env (Unit {0})
  put_best_effort token field value w =
      (record w { kv = (H.hset (enroll_key token) ((field, txt value) ∷ []) w.kv).0 }, next tt)

  abbrev pub keep_alive : String → Step K env (Unit {0})
  keep_alive token w =
      (record w { kv = (K.pipe (expire (enroll_key token) enroll_ttl ∷ []) w.kv).0 }, next tt)

  abbrev pub user_of : Result UserError User → Option User
  user_of (ok u) = some u
  user_of (err e) = none

  abbrev pub read_user : Option String → World K → Option User
  read_user none w = none
  read_user (some uid) w = user_of (get_by_id (env.fails user_query) uid w.db.core.users)

  abbrev pub uid_of : Option String → Option String
  uid_of none = none
  uid_of (some text) = parse_uuid text

  -- The principal of the enrollment cookie; where anything fails the session is tried.
  unfoldable pub token_principal : Option String → World K → Option Principal
  token_principal none w = none
  token_principal (some token) w =
      elim (uid_of (nonempty (H.hget (enroll_key token) "user_id" w.kv))) [
        | none ↦ none
        | some uid ↦ elim (read_user (some uid) w) [
          | none ↦ none
          | some u ↦ some (by_token uid u.email token)
        ]
      ]

  -- The principal of the session, who must need enrollment. Its reading slides the session on.
  abbrev pub needs_enrollment : User → Bool → Step K env Principal
  needs_enrollment u required =
      if not required || is_enrolled u
      then respond already_enrolled
      else give (by_session u.id u.email)

  abbrev pub owner_of : K.State × Result SessionError Session → Step K env Session
  owner_of (s, ok session) w = (record w { kv = s }, next session)
  owner_of (s, err e) w = (record w { kv = s }, reply no_enroll_auth)

  unfoldable pub session_principal : Step K env Principal
  session_principal = do
    token ← value_or (cookie_value env.session_cookie) no_enroll_auth
    session ← λ w. owner_of (get_session K config.session_ttl env.session_now token w.kv) w
    uid ← value_or (parse_uuid session.user_id) no_enroll_auth
    u ← λ w. user_or K env no_enroll_auth (get_by_id (env.fails user_query) uid w.db.core.users) w
    ensure (not (env.fails mfa_query)) no_enroll_auth
    λ w. needs_enrollment u w.db.settings.mfa_required w

  abbrev pub token_or_session : Option Principal → Step K env Principal
  unfolding session_principal
  token_or_session (some p) = give p
  token_or_session none = session_principal

  unfoldable pub resolve_enroll_principal : Step K env Principal
  unfolding session_principal token_principal
  resolve_enroll_principal w =
      token_or_session (token_principal (cookie_value env.enroll_cookie) w) w

  -- The token under which the state of the enrollment is kept, and the cookie that is set.
  unfoldable pub enrollment_token : Principal → Step K env (String × Option String)
  enrollment_token (by_token user_id email token) = give (token, none)
  enrollment_token (by_session user_id email) = do
    token ← value_or env.fresh_token internal_error
    put token "user_id" user_id
    keep_alive token
    put_best_effort token "session_authed" "1"
    give (token, some token)

  -- The secret that was there before is overwritten.
  unfoldable pub store_secret : Principal → String → Step K env String
  store_secret p token = do
    u ← λ w.
        user_or K env internal_error (get_by_id (env.fails fresh_query) (id_of p) w.db.core.users) w
    ensure (not (is_enrolled u)) already_enrolled
    secret ← value_or env.fresh_secret internal_error
    put token "secret_base32" secret
    keep_alive token
    give secret

  unfoldable pub post_enrollment_start : Step K env ⊥
  unfolding store_secret
  post_enrollment_start = do
    p ← resolve_enroll_principal
    token ← enrollment_token p
    secret ← store_secret p token.0
    issuer ← λ w.
        give (issuer_or_default (if env.fails name_query then "" else w.db.settings.instance_name))
          w
    uri ← value_or (build_provision_uri issuer (email_of p) secret) internal_error
    respond (enrollment_started token.1 secret uri)

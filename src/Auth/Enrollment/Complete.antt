-- ===== src/Auth/Enrollment/Complete.antt =====
-- PostEnrollmentComplete of internal/auth/mfa.go.
use schlass.Base.{
  ℕ, suc, Bool, not, ◌||◌, Option, none, some, List, [], ◌∷◌, String, ◌==◌, nat_eq, length,
  if◌then◌else◌, Result, ok, err, Outcome, next, reply, respond, give, ensure, value_or, ◌>>=◌,
  ◌>>◌,
}
use schlass.Store.Tables.{User}
use schlass.Valkey.Keys.{enroll_key}
use schlass.Valkey.Server.{Valkey, found, missing, failed, del, expire}
use schlass.Valkey.Server
use schlass.Valkey.Hashes.{Hashes}
use schlass.Session.Store.{SessionError, create}
use schlass.Users.Store.{get_by_id, set_totp_enrolled, set_last_login_at}
use schlass.Auth.RecoveryCodes
use schlass.Auth.Challenge.{cookie_value, totp_secret_aad}
use schlass.Auth.Env.{
  Lib, Config, Env, user_query, totp_update, codes_insert, login_update, audit_insert, Reply,
  failure, enrolled, user_dto, World,
}
use schlass.Auth.Steps.{
  internal_error, invalid_body, own_entry, Step, begin_transaction, commit_transaction, log,
  set_users, user_or,
}
use schlass.Auth.Enrollment.{no_enroll_auth, start_again}

-- Each hash with the id that the database gives to its row.
abbrev pub with_ids : (ℕ → String) → ℕ → List String → List (String × String)
with_ids ids n [] = []
with_ids ids n (hash ∷ hashes) = (ids n, hash) ∷ with_ids ids (suc n) hashes

module _ (K : Valkey) (H : Hashes K) (lib : Lib) (config : Config) (env : Env) where
  open lib use {parse_uuid, encrypt, unmarshal}

  -- The map that HGETALL gives, which must not be empty.
  abbrev pub state_of : Server.Reply (String → String) → Step K env (String → String)
  state_of (found m) = give m
  state_of _ = respond start_again

  -- The state of an enrollment that was verified: the user, the encrypted secret, the hashes.
  unfoldable pub load_enrollment : (String → String) → Step K env (String × (String × List String))
  load_enrollment m = do
    ensure (not (m "user_id" == "" || m "secret_base32" == "" || m "recovery_hashes" == "")) (
        failure 400 "MFA_ENROLLMENT_EXPIRED"
          "Enrollment is not in a state to complete — please verify a code first.")
    uid ← value_or (parse_uuid (m "user_id")) internal_error
    hashes ← value_or (unmarshal (m "recovery_hashes")) internal_error
    ensure (nat_eq (length hashes) 10) internal_error
    encrypted ← value_or (encrypt (m "secret_base32") (totp_secret_aad uid)) internal_error
    give (uid, (encrypted, hashes))

  abbrev pub insert_codes : String → List String → Step K env (Unit {0})
  insert_codes uid hashes w = (
    record w {
      view = record w.view {
        recovery_codes =
            RecoveryCodes.insert env.sql_now uid (with_ids env.ids 0 hashes) w.view.recovery_codes;
      };
    },
    next tt,
  )

  -- The transaction: the secret, the codes, the audit row and, on the cookie path, the login.
  unfoldable pub commit_enrollment :
      (session_authed : Bool) (uid encrypted : String) (hashes : List String) → Step K env User
  commit_enrollment authed uid encrypted hashes = do
    begin_transaction K env internal_error
    λ w.
        set_users K env internal_error
          (set_totp_enrolled (env.fails totp_update) env.sql_now uid encrypted w.view.core.users) w
    ensure (not (env.fails codes_insert)) internal_error
    insert_codes uid hashes
    u ← λ w. user_or K env internal_error (get_by_id (env.fails user_query) uid w.view.core.users) w
    log K env audit_insert (own_entry "mfa.enrollment_completed" u env.ip "success") internal_error
    if authed then give tt else λ w.
        set_users K env internal_error
          (set_last_login_at (env.fails login_update) env.sql_now uid w.view.core.users) w
    commit_transaction K env internal_error
    give u

  abbrev pub session_started :
      User → String → World K → K.State × Result SessionError String → World K × Outcome Reply ⊥
  session_started u path w (s, ok session) =
      (record w { kv = s }, reply (enrolled (some session) (user_dto u) path))
  session_started u path w (s, err e) = (record w { kv = s }, reply internal_error)

  -- A session is started only on the cookie path.
  unfoldable pub close_enrollment :
      (session_authed : Bool) (token : String) → User → (path : String) → Step K env ⊥
  close_enrollment authed token u path = do
    λ w. (record w { kv = (K.pipe (del (enroll_key token) ∷ []) w.kv).0 }, next tt)
    if authed then respond (enrolled none (user_dto u) path) else λ w.
        session_started u path w
          (create K config.session_ttl env.session_now env.fresh u.id env.ip env.user_agent w.kv)

  -- `body` says whether the recovery codes are acknowledged.
  unfoldable pub post_enrollment_complete : (body : Option Bool) → Step K env ⊥
  post_enrollment_complete body = do
    token ← value_or (cookie_value env.enroll_cookie) no_enroll_auth
    acknowledged ← value_or body invalid_body
    ensure acknowledged (failure 400 "VALIDATION_ERROR" "You must acknowledge the recovery codes.")
    m ← λ w. state_of (H.hgetall (enroll_key token) w.kv) w
    state ← load_enrollment m
    u ← commit_enrollment (m "session_authed" == "1") state.0 state.1.0 state.1.1
    close_enrollment (m "session_authed" == "1") token u (m "return_to")

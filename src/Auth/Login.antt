-- ===== src/Auth/Login.antt =====
-- PostLogin of internal/auth/handler.go, and LoginRequest of requests.go.
pub mod Conditions
pub mod Branches
pub mod Guarantee
pub mod Answer
use schlass.Base.{
  ℕ, ℤ, pos, sub_ℕ, quotient, ◌-◌, ◌/◌, Bool, true, false, not, Option, none, some, List, [], ◌∷◌,
  String, ◌==◌, ltb, if◌then◌else◌, has_char, byte_len, Result, ok, err, next, reply, respond, give,
  ensure, value_or, ◌>>=◌, ◌>>◌,
}
use schlass.Store.Tables.{User, Entry}
use schlass.Valkey.Keys.{enroll_key, challenge_key}
use schlass.Valkey.Server.{Valkey, Command, expire}
use schlass.Valkey.Hashes.{Hashes, FieldValue, txt, num}
use schlass.Oidc.Claims.{second}
use schlass.Oidc.ReturnTo.{sanitize_return_to}
use schlass.Session.Store.{create, create_with_pending_return_to}
use schlass.Users.Store.{
  UserError, user_not_found, query_failed, get_by_email, get_by_id, set_last_login_at,
}
use schlass.Users.Lockout.{is_locked, increment_failed_logins, reset_failed_logins}
use schlass.Auth.Env.{
  Lib, Config, Env, threshold_query, duration_query, mfa_query, email_query, fresh_query,
  increment_update, reset_update, login_update, audit_insert, second_insert, Reply, failure,
  account_locked, signed_in, enrollment_required, totp_required, user_dto,
}
use schlass.Auth.Steps.{
  internal_error, invalid_body, user_entry, own_entry, with_users, Step, begin_transaction,
  commit_transaction, log, set_users, user_or, with_session,
}

pub record LoginRequest : Type 0 where
  pub email : String
  pub password : String
  pub return_to : String

-- The message of the error; `none` is no error. 64 is the code of @.
unfoldable pub validate_login : LoginRequest → Option String
validate_login req =
    if req.email == ""
    then some "email is required"
    else (if ltb 320 (byte_len req.email)
        then some "email is too long"
        else (if not (has_char 64 req.email)
            then some "email is malformed"
            else (if req.password == ""
                then some "password is required"
                else (if ltb 256 (byte_len req.password)
                    then some "password is too long"
                    else none))))

abbrev pub invalid_credentials : Reply
invalid_credentials = failure 401 "INVALID_CREDENTIALS" "Invalid email or password."

abbrev pub or_no_path : Option String → String
or_no_path none = ""
or_no_path (some path) = path

-- int(d.Seconds()) of the time until the lock is over, if that is positive.
abbrev pub retry_after : ℕ → Option ℕ → ℤ
retry_after now none = pos 0
retry_after now (some until) = pos ((until - now) / second)

-- The same for the row that was read again, where the time may be negative.
abbrev pub retry_after_race : ℕ → Option ℕ → ℤ
retry_after_race now none = pos 0
retry_after_race now (some until) = quotient (sub_ℕ until now) second

-- The field return_to of an enrollment or a challenge.
abbrev pub path_field : String → List (String × FieldValue)
path_field path = if path == "" then [] else ("return_to", txt path) ∷ []

module _ (K : Valkey) (H : Hashes K) (lib : Lib) (config : Config) (env : Env)
    (body : Option LoginRequest) where
  open lib use {to_lower, parse_url, verify_password}

  abbrev pub failed_login : User → Entry
  failed_login u = own_entry "login.failed" u env.ip "failure"

  -- The event is audited, the transaction is committed, and the request is refused.
  abbrev pub audited : {A : Type 0} → Entry → Reply → Step K env A
  audited entry refusal = do
    log K env audit_insert entry internal_error
    commit_transaction K env internal_error
    respond refusal

  abbrev pub valid_request : LoginRequest → Option String → Step K env LoginRequest
  valid_request req none = give req
  valid_request req (some message) = respond (failure 400 "VALIDATION_ERROR" message)

  unfoldable pub check_request : Step K env LoginRequest
  check_request = do
    ensure (env.origin == config.public_url)
        (failure 403 "INVALID_ORIGIN" "Request origin not allowed.")
    req ← value_or body invalid_body
    valid_request req (validate_login req)

  -- The answer of GetByEmail. The check against the dummy hash has no effect but its time.
  abbrev pub known_user : String → Result UserError User → Step K env User
  known_user email (ok u) = give u
  known_user email (err query_failed) = respond internal_error
  known_user email (err user_not_found) =
      audited (user_entry "login.failed" none email "" env.ip "failure") invalid_credentials

  unfoldable pub find_user : LoginRequest → Step K env User
  find_user req = do
    ensure (not (env.fails threshold_query)) internal_error
    ensure (not (env.fails duration_query)) internal_error
    begin_transaction K env internal_error
    λ w.
        known_user (to_lower req.email)
          (get_by_email (env.fails email_query) (to_lower req.email) w.view.core.users) w

  unfoldable pub check_lock : User → Step K env (Unit {0})
  check_lock u =
      if is_locked env.now u.locked_until
      then audited (failed_login u) (account_locked (retry_after env.now u.locked_until))
      else give tt

  -- account.locked, where the attempt locked the row.
  abbrev pub lock_logged : User → Bool → Step K env (Unit {0})
  lock_logged u true =
      log K env second_insert (own_entry "account.locked" u env.ip "success") internal_error
  lock_logged u false = give tt

  -- The answer of IncrementFailedLogins; a row that is locked by now is not counted.
  abbrev pub counted : {A : Type 0} → User → List User × Result (Unit {0}) (ℕ × Bool) → Step K env A
  counted u (users, err already_locked) = audited (failed_login u) invalid_credentials
  counted u (users, ok (count, locked)) = do
    λ w. (record w { view = with_users users w.view }, next tt)
    log K env audit_insert (failed_login u) internal_error
    lock_logged u locked
    commit_transaction K env internal_error
    respond invalid_credentials

  unfoldable pub wrong_password : {A : Type 0} → User → Step K env A
  wrong_password u = do
    ensure (not (env.fails increment_update)) internal_error
    λ w.
        counted u
          (increment_failed_logins env.sql_now w.view.settings.lockout_threshold
            w.view.settings.lockout_duration_secs u.id w.view.core.users)
          w

  abbrev pub verified : User → Result (Unit {0}) Bool → Step K env (Unit {0})
  verified u (err e) = respond internal_error
  verified u (ok true) = give tt
  verified u (ok false) = wrong_password u

  unfoldable pub check_password : LoginRequest → User → Step K env (Unit {0})
  unfolding wrong_password
  check_password req u = verified u (verify_password req.password u.password_hash)

  -- The row was locked since it was read: it is read again for the time of the reply.
  abbrev pub raced : User → Step K env (Unit {0})
  raced u = do
    fresh ← λ w.
        user_or K env internal_error (get_by_id (env.fails fresh_query) u.id w.view.core.users) w
    audited (failed_login u) (account_locked (retry_after_race env.now fresh.locked_until))

  abbrev pub counter_reset : User → List User × Result (Unit {0}) (Unit {0}) → Step K env (Unit {0})
  counter_reset u (users, ok done) w = (record w { view = with_users users w.view }, next tt)
  counter_reset u (users, err already_locked) w = raced u w

  unfoldable pub reset_counter : User → Step K env (Unit {0})
  reset_counter u = do
    ensure (not (env.fails reset_update)) internal_error
    λ w. counter_reset u (reset_failed_logins env.sql_now u.id w.view.core.users) w

  -- login.succeeded with the time of the login, and the commit.
  unfoldable pub record_login : User → Step K env (Unit {0})
  record_login u = do
    log K env audit_insert (own_entry "login.succeeded" u env.ip "success") internal_error
    λ w.
        set_users K env internal_error
          (set_last_login_at (env.fails login_update) env.sql_now u.id w.view.core.users) w
    commit_transaction K env internal_error

  -- A temporary password: the session keeps the path until the password is changed.
  unfoldable pub sign_in_forced : {A : Type 0} → User → String → Step K env A
  unfolding record_login
  sign_in_forced u path = do
    record_login u
    λ w.
        with_session K env (λ token. signed_in token (user_dto u) "") w
          (create_with_pending_return_to K config.session_ttl env.session_now env.fresh u.id env.ip
            env.user_agent path w.kv)

  unfoldable pub sign_in : {A : Type 0} → User → String → Step K env A
  unfolding record_login
  sign_in u path = do
    record_login u
    λ w.
        with_session K env (λ token. signed_in token (user_dto u) path) w
          (create K config.session_ttl env.session_now env.fresh u.id env.ip env.user_agent w.kv)

  -- HSET of a hash for the second factor; the error of EXPIRE is dropped.
  abbrev pub hash_written : {A : Type 0} → List Command → Reply → K.State × Bool → Step K env A
  hash_written expiry answer (s, false) w = (record w { kv = s }, reply internal_error)
  hash_written expiry answer (s, true) w = (record w { kv = (K.pipe expiry s).0 }, reply answer)

  unfoldable pub require_enrollment : {A : Type 0} → User → String → Step K env A
  require_enrollment u path = do
    commit_transaction K env internal_error
    token ← value_or env.fresh_token internal_error
    λ w.
        hash_written (expire (enroll_key token) 600 ∷ []) (enrollment_required token)
          (H.hset (enroll_key token) (("user_id", txt u.id) ∷ path_field path) w.kv) w

  unfoldable pub require_totp : {A : Type 0} → User → String → Step K env A
  require_totp u path = do
    commit_transaction K env internal_error
    token ← value_or env.fresh_token internal_error
    λ w.
        hash_written (expire (challenge_key token) 120 ∷ []) (totp_required token)
          (H.hset (challenge_key token)
            (("user_id", txt u.id) ∷ ("attempts_remaining", num (pos 5)) ∷ path_field path) w.kv)
          w

  -- The three ways on, where the password need not be changed.
  abbrev pub second_factor : {A : Type 0} → User → String → Bool → Option ℕ → Step K env A
  second_factor u path false enrolled_at = sign_in u path
  second_factor u path true none = require_enrollment u path
  second_factor u path true (some enrolled_at) = require_totp u path

  abbrev pub by_password :
      {A : Type 0} → User → String → (force_password_change : Bool) → Step K env A
  unfolding sign_in_forced sign_in require_enrollment require_totp
  by_password u path true = sign_in_forced u path
  by_password u path false = do
    ensure (not (env.fails mfa_query)) internal_error
    λ w. second_factor u path w.view.settings.mfa_required u.totp_enrolled_at w

  unfoldable pub branch : {A : Type 0} → User → String → Step K env A
  unfolding sign_in_forced sign_in require_enrollment require_totp
  branch u path = by_password u path u.force_password_change

  unfoldable pub post_login : Step K env ⊥
  post_login = do
    req ← check_request
    u ← find_user req
    check_lock u
    check_password req u
    reset_counter u
    branch u (
        or_no_path (
          if req.return_to == ""
          then none
          else sanitize_return_to parse_url req.return_to config.public_url))

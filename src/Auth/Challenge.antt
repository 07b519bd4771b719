-- ===== src/Auth/Challenge.antt =====
-- PostChallenge of internal/auth/mfa.go, with verifyRecoveryCode and writeChallengeFailedAudit.
pub mod Budget
pub mod Attempts
pub mod Bound
pub mod Verified
pub mod Guarantee
use schlass.Base.{
  ℕ, ℤ, pos, negsuc, ◌/◌, Bool, true, false, not, Option, none, some, List, [], ◌∷◌, String, ◌==◌,
  nat_eq, ◌⧺◌, if◌then◌else◌, byte_len, Result, ok, err, Outcome, next, reply, respond, give,
  ensure, value_or, ◌>>=◌, ◌>>◌,
}
use schlass.Store.Tables.{User, Entry}
use schlass.Valkey.Keys.{Key, challenge_key}
use schlass.Valkey.Server.{Valkey, found, missing, failed, del}
use schlass.Valkey.Server
use schlass.Valkey.Hashes.{Hashes}
use schlass.Oidc.Claims.{unix}
use schlass.Session.Store.{create}
use schlass.Users.Store.{UserError, get_by_id, advance_totp_counter, set_last_login_at}
use schlass.Auth.Totp.{validate_totp}
use schlass.Auth.RecoveryCodes.{RecoveryCode, list_unused}
use schlass.Auth.RecoveryCodes
use schlass.Auth.Env.{
  Lib, Config, Env, user_query, codes_query, counter_update, mark_update, login_update,
  audit_insert, second_insert, third_insert, side_begin, side_query, side_insert, side_commit,
  Reply, failure, signed_in, user_dto, World,
}
use schlass.Auth.Steps.{
  internal_error, invalid_body, user_entry, own_entry, with_entry, Step, begin_transaction,
  commit_transaction, log, set_users, user_or, with_session,
}

pub record ChallengeRequest : Type 0 where
  pub code : String
  pub recovery_code : String

abbrev pub challenge_expired : Reply
challenge_expired =
    failure 401 "MFA_CHALLENGE_EXPIRED" "Sign-in session expired — please sign in again."

abbrev pub invalid_code : Reply
invalid_code = failure 401 "MFA_INVALID_CODE" "Invalid code."

abbrev pub invalid_recovery_code : Reply
invalid_recovery_code = failure 401 "MFA_INVALID_RECOVERY_CODE" "Invalid recovery code."

-- A text that HGET gave and that is not empty.
abbrev pub nonempty : Server.Reply String → Option String
nonempty (found v) = if v == "" then none else some v
nonempty _ = none

-- The value of a cookie, if that is not empty.
abbrev pub cookie_value : Option String → Option String
cookie_value none = none
cookie_value (some token) = if token == "" then none else some token

-- totpSecretAAD
abbrev pub totp_secret_aad : String → String
totp_secret_aad user_id = "user_totp_secret:" ⧺ user_id

-- The loop over the unused codes: the first one that matches. All are tried; an error is logged.
abbrev pub matches : Result (Unit {0}) Bool → Bool
matches (ok b) = b
matches (err e) = false

unfoldable pub matched_code :
    (verify : String → String → Result (Unit {0}) Bool) → String → List RecoveryCode → Option String
matched_code verify plaintext [] = none
matched_code verify plaintext (c ∷ codes) =
    if matches (verify plaintext c.code_hash)
    then some c.id
    else matched_code verify plaintext codes

module _ (K : Valkey) (H : Hashes K) (lib : Lib) (config : Config) (env : Env)
    (body : Option ChallengeRequest) where
  open lib use {parse_uuid, verify_password, decrypt, totp_valid}

  -- The email of the actor, where the id is one and the query succeeds.
  abbrev pub actor_email : Result UserError User → String
  actor_email (ok u) = u.email
  actor_email (err e) = ""

  abbrev pub challenge_failed : World K → String → Option String → Entry
  challenge_failed w user_id none =
      user_entry "mfa.challenge_failed" none "" user_id env.ip "failure"
  challenge_failed w user_id (some uid) =
      user_entry "mfa.challenge_failed" (some uid)
        (actor_email (get_by_id (env.fails side_query) uid w.db.core.users)) user_id env.ip
        "failure"

  -- A transaction of its own, whose failure is only logged.
  unfoldable pub write_challenge_failed_audit : (user_id : String) → World K → World K
  write_challenge_failed_audit user_id w =
      if env.fails side_begin
      then w
      else (if env.fails side_insert
          then w
          else (if env.fails side_commit then w else record w {
            db =
                with_entry
                  (challenge_failed w user_id (if user_id == "" then none else parse_uuid user_id))
                  w.db;
          }))

  -- DEL of the challenge, whose error is dropped.
  abbrev pub drop_challenge : String → World K → World K
  drop_challenge token w = record w { kv = (K.pipe (del (challenge_key token) ∷ []) w.kv).0 }

  abbrev pub no_attempts_left : Reply
  no_attempts_left =
      failure 401 "MFA_CHALLENGE_MAX_ATTEMPTS" "Too many failed attempts — please sign in again."

  -- The answer of HINCRBY: how many attempts remain after this one.
  abbrev pub attempt : String → World K → K.State × Option ℤ → World K × Outcome Reply ℕ
  attempt token w (s, none) = (record w { kv = s }, reply challenge_expired)
  attempt token w (s, some (pos n)) = (record w { kv = s }, next n)
  attempt token w (s, some (negsuc n)) = (
    write_challenge_failed_audit "" (drop_challenge token (record w { kv = s })),
    reply no_attempts_left,
  )

  -- The attempt is counted before anything is checked.
  unfoldable pub count_attempt : String → Step K env ℕ
  unfolding write_challenge_failed_audit
  count_attempt token w =
      attempt token w (H.hincr (challenge_key token) "attempts_remaining" (negsuc 0) w.kv)

  abbrev pub path_of : Server.Reply String → String
  path_of (found path) = path
  path_of _ = ""

  -- The user of the challenge and the path to return to.
  unfoldable pub load_challenge : String → Step K env (User × String)
  load_challenge token = do
    user_id ←
        λ w. value_or (nonempty (H.hget (challenge_key token) "user_id" w.kv)) challenge_expired w
    uid ← value_or (parse_uuid user_id) internal_error
    path ← λ w. give (path_of (H.hget (challenge_key token) "return_to" w.kv)) w
    u ← λ w. user_or K env internal_error (get_by_id (env.fails user_query) uid w.db.core.users) w
    give (u, path)

  -- The refusal of a code; with the last attempt the challenge goes.
  unfoldable pub refuse_code : {A : Type 0} → String → ℕ → User → Step K env A
  unfolding write_challenge_failed_audit
  refuse_code token remaining u w = (
    write_challenge_failed_audit u.id (if nat_eq remaining 0 then drop_challenge token w else w),
    reply invalid_code,
  )

  abbrev pub step_of : String → ℕ → User → Result (Unit {0}) (Option ℕ) → Step K env ℕ
  step_of token remaining u (err e) = respond internal_error
  step_of token remaining u (ok none) = refuse_code token remaining u
  step_of token remaining u (ok (some step)) = give step

  -- The step at which the code is valid, later than the last one used.
  unfoldable pub check_totp : String → ℕ → User → String → Step K env ℕ
  unfolding refuse_code
  check_totp token remaining u code =
      if not (nat_eq (byte_len code) 6) then refuse_code token remaining u else do
        secret ← value_or (decrypt u.totp_secret_encrypted (totp_secret_aad u.id)) internal_error
        step_of token remaining u
            (validate_totp (totp_valid code secret) (unix env.now) u.last_used_totp_counter)

  -- What follows the check of either code: login.succeeded and mfa.challenge_succeeded, and what is
  -- audited besides; the time of the login; the commit; the session in place of the challenge.
  unfoldable pub finish : String → User → String → Step K env (Unit {0}) → Step K env ⊥
  finish token u path audit_more = do
    log K env audit_insert (own_entry "login.succeeded" u env.ip "success") internal_error
    log K env second_insert (own_entry "mfa.challenge_succeeded" u env.ip "success") internal_error
    audit_more
    λ w.
        set_users K env internal_error
          (set_last_login_at (env.fails login_update) env.sql_now u.id w.view.core.users) w
    commit_transaction K env internal_error
    λ w. (drop_challenge token w, next tt)
    λ w.
        with_session K env (λ session. signed_in session (user_dto u) path) w
          (create K config.session_ttl env.session_now env.fresh u.id env.ip env.user_agent w.kv)

  unfoldable pub sign_in_by_totp : String → User → String → ℕ → Step K env ⊥
  unfolding finish
  sign_in_by_totp token u path step = do
    begin_transaction K env internal_error
    λ w.
        set_users K env internal_error
          (advance_totp_counter (env.fails counter_update) u.id step w.view.core.users) w
    finish token u path (give tt)

  abbrev pub set_codes : List RecoveryCode × Result (Unit {0}) (Unit {0}) → Step K env (Unit {0})
  set_codes (codes, err e) w = (w, reply internal_error)
  set_codes (codes, ok done) w =
      (record w { view = record w.view { recovery_codes = codes } }, next tt)

  unfoldable pub sign_in_by_recovery_code : String → User → String → String → Step K env ⊥
  unfolding finish
  sign_in_by_recovery_code token u path code_id = do
    begin_transaction K env internal_error
    ensure (not (env.fails mark_update)) internal_error
    λ w. set_codes (RecoveryCodes.mark_used env.sql_now code_id w.view.recovery_codes) w
    finish token u path (
        log K env third_insert (own_entry "mfa.recovery_code_used" u env.ip "success")
          internal_error)

  abbrev pub found_code : User → Option String → Step K env String
  found_code u (some id) w = (w, next id)
  found_code u none w = (write_challenge_failed_audit u.id w, reply invalid_recovery_code)

  unfoldable pub verify_recovery_code : String → User → String → String → Step K env ⊥
  unfolding sign_in_by_recovery_code write_challenge_failed_audit
  verify_recovery_code token u path plaintext = do
    ensure (not (env.fails codes_query)) internal_error
    code_id ← λ w.
        found_code u (matched_code verify_password plaintext (list_unused u.id w.db.recovery_codes))
          w
    sign_in_by_recovery_code token u path code_id

  unfoldable pub verify_code : String → ℕ → ChallengeRequest → User × String → Step K env ⊥
  unfolding check_totp sign_in_by_totp verify_recovery_code
  verify_code token remaining req (u, path) =
      if not (req.recovery_code == "")
      then verify_recovery_code token u path req.recovery_code
      else do step ← check_totp token remaining u req.code; sign_in_by_totp token u path step

  unfoldable pub post_challenge : Step K env ⊥
  post_challenge = do
    token ← value_or (cookie_value env.challenge_cookie) challenge_expired
    req ← value_or body invalid_body
    remaining ← count_attempt token
    challenge ← load_challenge token
    verify_code token remaining req challenge

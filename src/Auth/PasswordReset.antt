-- ===== src/Auth/PasswordReset.antt =====
-- PostRequest, PostConfirm and PostValidate of internal/auth/password_reset.go. Mail is left out.
pub mod Guarantee
pub mod SingleUse
pub mod SignsOut
use schlass.Base.{
  ℕ, ◌*◌, Bool, false, not, ◌||◌, Option, none, some, List, String, ◌==◌, ltb, if◌then◌else◌,
  trim_space, Result, ok, err, next, reply, respond, give, ensure, value_or, ◌>>=◌, ◌>>◌,
}
use schlass.Store.Tables.{User, Entry}
use schlass.Valkey.Server.{Valkey}
use schlass.Oidc.Claims.{second}
use schlass.Session.Store.{delete_all_for_user}
use schlass.Session.RevokeBefore.{revoke_before_set_now}
use schlass.Users.Store.{UserError, user_not_found, query_failed, get_by_email, set_password_hash}
use schlass.Users.Lockout.{clear_lockout_for_password_change}
use schlass.Validate.Credentials.{CredentialError, email, password}
use schlass.Auth.ResetTokens.{
  ResetToken, is_null, insert, get_by_token, mark_used, invalidate_outstanding_for_user,
}
use schlass.Auth.ChangePassword.{pwned_or}
use schlass.Auth.Env.{
  Lib, Config, Env, email_query, token_query, policy_query, invalidate_update, token_insert,
  password_update, lockout_update, mark_update, audit_insert, second_insert, Reply, failure,
  policy_violation, accepted, reset_done,
}
use schlass.Auth.Steps.{
  internal_error, invalid_body, user_entry, own_entry, with_users, Step, begin_transaction,
  commit_transaction, log, log_best_effort, set_users, unless,
}

pub record ConfirmRequest : Type 0 where
  pub token : String
  pub password : String

abbrev pub invalid_token : Reply
invalid_token = failure 400 "INVALID_TOKEN" "Reset link is no longer valid."

-- 30*time.Minute
abbrev pub reset_ttl : ℕ
reset_ttl = 1800 * second

-- token.UsedAt != nil || time.Now().After(token.ExpiresAt)
abbrev pub is_spent : ℕ → ResetToken → Bool
is_spent now t = not (is_null t.used_at) || ltb t.expires_at now

module _ (K : Valkey) (lib : Lib) (config : Config) (env : Env) where
  open lib use {to_lower, parse_address, hmac_token, hash_password, is_pwned, is_upper, is_digit}

  abbrev pub requested : Option String → String → String → Entry
  requested actor actor_email user_id =
      user_entry "password_reset.requested" actor actor_email user_id env.ip "success"

  -- Nobody is mailed: the request is audited, without the transaction, and answered as any other.
  unfoldable pub unmatched : {A : Type 0} → Step K env A
  unmatched w = (log_best_effort K env second_insert (requested none "" "") w, reply accepted)

  unfoldable pub admin_blocked : {A : Type 0} → User → Step K env A
  unfolding unmatched
  admin_blocked u w = unmatched (
      log_best_effort K env audit_insert
        (own_entry "password_reset.admin_blocked" u env.ip "success") w)

  -- Whether the user of the email may reset the password by mail: active, and no super_admin.
  abbrev pub may_reset : Result UserError User → Step K env User
  unfolding unmatched admin_blocked
  may_reset (err query_failed) = respond accepted
  may_reset (err user_not_found) = unmatched
  may_reset (ok u) =
      if u.status == "active"
      then (if u.role == "super_admin" then admin_blocked u else give u)
      else unmatched

  abbrev pub no_error : Option CredentialError → Step K env (Unit {0})
  no_error none = give tt
  no_error (some e) = respond accepted

  -- `body` is the email of the request. The check against the dummy hash has no effect but its time.
  unfoldable pub find_recipient : (body : Option String) → Step K env User
  unfolding unmatched admin_blocked
  find_recipient body = do
    text ← value_or body accepted
    no_error (email parse_address (trim_space (to_lower text)))
    λ w.
        may_reset
          (get_by_email (env.fails email_query) (trim_space (to_lower text)) w.db.core.users) w

  abbrev pub set_tokens : List ResetToken → Step K env (Unit {0})
  set_tokens tokens w = (record w { view = record w.view { reset_tokens = tokens } }, next tt)

  -- The earlier tokens of the user are used up, and a new one is stored.
  unfoldable pub issue_token : User → String → Step K env ⊥
  issue_token u plaintext = do
    begin_transaction K env accepted
    ensure (not (env.fails invalidate_update)) accepted
    λ w. set_tokens (invalidate_outstanding_for_user env.sql_now u.id w.view.reset_tokens).0 w
    ensure (not (env.fails token_insert)) accepted
    λ w.
        set_tokens
          (insert hmac_token env.sql_now (env.ids 0) u.id plaintext reset_ttl w.view.reset_tokens) w
    log K env second_insert (requested (some u.id) u.email u.id) accepted
    commit_transaction K env accepted
    respond accepted

  unfoldable pub post_request : (body : Option String) → Step K env ⊥
  post_request body = do
    u ← find_recipient body
    plaintext ← value_or env.fresh_token accepted
    issue_token u plaintext

  -- auditConfirmFailed: on the pool, whose failure is only logged.
  abbrev pub refuse : {A : Type 0} → Option String → String → Reply → Step K env A
  refuse actor user_id refusal w = (
    log_best_effort K env second_insert
        (user_entry "password_reset.confirm_failed" actor "" user_id env.ip "failure") w,
    reply refusal,
  )

  -- A token that is used or expired looks like an unknown one.
  abbrev pub usable_token : Option ResetToken → Step K env ResetToken
  usable_token none = refuse none "" invalid_token
  usable_token (some t) =
      if is_spent env.now t then refuse (some t.user_id) t.user_id invalid_token else give t

  unfoldable pub load_token : String → Step K env ResetToken
  load_token text = do
    ensure (not (text == "")) invalid_token
    begin_transaction K env internal_error
    ensure (not (env.fails token_query)) internal_error
    λ w. usable_token (get_by_token hmac_token text w.view.reset_tokens) w

  abbrev pub allowed : ResetToken → Option CredentialError → Step K env (Unit {0})
  allowed t none = give tt
  allowed t (some e) = refuse (some t.user_id) t.user_id (policy_violation e)

  -- The hash of the new password, which the policy allows and which is in no known breach.
  unfoldable pub check_new_password : ResetToken → String → Step K env String
  check_new_password t text = do
    ensure (not (env.fails policy_query)) internal_error
    λ w. allowed t (password is_upper is_digit text w.view.settings.password_policy) w
    unless (pwned_or (is_pwned text))
    value_or (hash_password text) internal_error

  abbrev pub reset_entry : String → ResetToken → Entry
  reset_entry event t = user_entry event (some t.user_id) "" t.user_id env.ip "success"

  -- The new password, the end of the lock, and the use of the token, in one transaction.
  unfoldable pub store_reset : ResetToken → String → Step K env (Unit {0})
  store_reset t hash = do
    λ w.
        set_users K env internal_error
          (set_password_hash (env.fails password_update) env.sql_now t.user_id hash false
            w.view.core.users)
          w
    ensure (not (env.fails lockout_update)) internal_error
    λ w. (
      record w {
        view =
            with_users (clear_lockout_for_password_change env.sql_now t.user_id w.view.core.users)
              w.view;
      },
      next tt,
    )
    ensure (not (env.fails mark_update)) internal_error
    λ w. set_tokens (mark_used env.sql_now t.id w.view.reset_tokens) w
    log K env audit_insert (reset_entry "password_reset.completed" t) internal_error
    log K env second_insert (reset_entry "user.revoke_before_set" t) internal_error
    commit_transaction K env internal_error

  -- Tokens are revoked and sessions deleted, with errors that are only logged.
  abbrev pub revoke_after : ResetToken → Step K env ⊥
  revoke_after t = do
    λ w. (record w { kv = (revoke_before_set_now K t.user_id env.now w.kv).0 }, next tt)
    λ w. (record w { kv = (delete_all_for_user K config.session_ttl t.user_id w.kv).0 }, next tt)
    respond (reset_done t.user_id)

  unfoldable pub post_confirm : (body : Option ConfirmRequest) → Step K env ⊥
  post_confirm body = do
    req ← value_or body invalid_body
    t ← load_token req.token
    hash ← check_new_password t req.password
    store_reset t hash
    revoke_after t

  abbrev pub validated : Option ResetToken → Step K env ⊥
  validated none = respond invalid_token
  validated (some t) = if is_spent env.now t then respond invalid_token else respond accepted

  -- `body` is the token of the request.
  unfoldable pub post_validate : (body : Option String) → Step K env ⊥
  post_validate body = do
    text ← value_or body invalid_body
    ensure (not (text == "")) invalid_token
    ensure (not (env.fails token_query)) internal_error
    λ w. validated (get_by_token hmac_token text w.db.reset_tokens) w

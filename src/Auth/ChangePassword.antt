-- ===== src/Auth/ChangePassword.antt =====
-- PostChangePassword of internal/auth/handler.go.
use schlass.Base.{
  Bool, true, false, not, Option, none, some, String, Result, ok, err, next, give, ensure, value_or,
  ◌>>=◌, ◌>>◌,
}
use schlass.Store.Tables.{User}
use schlass.Valkey.Keys.{Session}
use schlass.Valkey.Server.{Valkey}
use schlass.Session.Store.{SessionError, get_session, create, delete}
use schlass.Session.RevokeBefore.{revoke_before_set_now}
use schlass.Users.Store.{set_password_hash}
use schlass.Validate.Credentials.{CredentialError, password}
use schlass.Auth.Env.{
  Lib, Config, Env, policy_query, password_update, audit_insert, second_insert, Reply, failure,
  policy_violation, password_changed,
}
use schlass.Auth.Steps.{
  internal_error, not_authenticated, invalid_body, own_entry, Step, begin_transaction,
  commit_transaction, log, set_users, verified_or, unless, with_session,
}

pub record ChangePasswordRequest : Type 0 where
  pub current_password : String
  pub new_password : String

-- What the policy and the breach check say of a new password. The check fails open.
abbrev pub policy_or : Option CredentialError → Option Reply
policy_or none = none
policy_or (some e) = some (policy_violation e)

abbrev pub pwned_or : Option Bool → Option Reply
pwned_or (some true) = some (
    failure 400 "PASSWORD_BREACHED"
      "This password has appeared in a known data breach. Choose a different one.")
pwned_or _ = none

module _ (K : Valkey) (lib : Lib) (config : Config) (env : Env)
    (body : Option ChangePasswordRequest) where
  open lib use {verify_password, hash_password, is_pwned, is_upper, is_digit}

  -- The pending path of the session of the cookie, "" where that cannot be read. The read slides the
  -- session on.
  abbrev pub path_of : K.State × Result SessionError Session → Step K env String
  path_of (s, ok session) w = (record w { kv = s }, next session.pending_return_to)
  path_of (s, err e) w = (record w { kv = s }, next "")

  unfoldable pub pending_path : Option String → Step K env String
  pending_path none = give ""
  pending_path (some token) =
      λ w. path_of (get_session K config.session_ttl env.session_now token w.kv) w

  -- The request, whose current password is right and whose new one is allowed; the hash of that.
  unfoldable pub check_passwords : User → Step K env String
  check_passwords u = do
    req ← value_or body invalid_body
    unless (
        verified_or internal_error
          (failure 400 "WRONG_CURRENT_PASSWORD" "Current password is incorrect.")
          (verify_password req.current_password u.password_hash))
    ensure (not (env.fails policy_query)) internal_error
    λ w.
        unless
          (policy_or (password is_upper is_digit req.new_password w.db.settings.password_policy)) w
    unless (pwned_or (is_pwned req.new_password))
    value_or (hash_password req.new_password) internal_error

  unfoldable pub store_password : User → String → Step K env (Unit {0})
  store_password u hash = do
    begin_transaction K env internal_error
    λ w.
        set_users K env internal_error
          (set_password_hash (env.fails password_update) env.sql_now u.id hash false
            w.view.core.users)
          w
    log K env audit_insert (own_entry "password.changed" u env.ip "success") internal_error
    log K env second_insert (own_entry "user.revoke_before_set" u env.ip "success") internal_error
    commit_transaction K env internal_error

  -- Both are only logged where they fail.
  abbrev pub without_session : User → Option String → K.State → K.State
  without_session u none s = s
  without_session u (some token) s = (delete K config.session_ttl u.id token s).0

  unfoldable pub revoke_and_rotate : User → String → Step K env ⊥
  revoke_and_rotate u path = do
    λ w. (record w { kv = (revoke_before_set_now K u.id env.now w.kv).0 }, next tt)
    λ w. (record w { kv = without_session u env.session_cookie w.kv }, next tt)
    λ w.
        with_session K env (λ token. password_changed token path) w
          (create K config.session_ttl env.session_now env.fresh u.id env.ip env.user_agent w.kv)

  unfoldable pub post_change_password : Step K env ⊥
  post_change_password = do
    u ← value_or env.current_user not_authenticated
    path ← pending_path env.session_cookie
    hash ← check_passwords u
    store_password u hash
    revoke_and_rotate u path

-- ===== src/Auth/DisableMfa.antt =====
-- PostDisableMfa of internal/auth/handler.go.
use schlass.Base.{not, Option, List, String, next, respond, ensure, value_or, ◌>>=◌, ◌>>◌}
use schlass.Store.Tables.{User}
use schlass.Valkey.Server.{Valkey}
use schlass.Session.Store.{delete_all_for_user}
use schlass.Session.RevokeBefore.{revoke_before_set_now}
use schlass.Users.Store.{get_by_id, clear_totp}
use schlass.Auth.RecoveryCodes.{RecoveryCode}
use schlass.Auth.RecoveryCodes
use schlass.Auth.Env.{
  Lib, Config, Env, user_query, codes_delete, totp_update, audit_insert, second_insert, failure,
  mfa_disabled,
}
use schlass.Auth.Steps.{
  internal_error, not_authenticated, invalid_body, own_entry, Step, begin_transaction,
  commit_transaction, log, set_users, user_or, is_enrolled, verified_or, unless,
}

-- `body` is the current password of the request.
module _ (K : Valkey) (lib : Lib) (config : Config) (env : Env) (body : Option String) where
  -- The user must be enrolled, and the password right for the row as it now is.
  unfoldable pub check_owner : User → Step K env (Unit {0})
  check_owner current = do
    password ← value_or body invalid_body
    ensure (is_enrolled current)
        (failure 400 "MFA_NOT_ENROLLED" "Two-factor authentication is not enabled on this account.")
    full ← λ w.
        user_or K env internal_error (get_by_id (env.fails user_query) current.id w.db.core.users) w
    unless (
        verified_or internal_error (failure 401 "INVALID_CREDENTIALS" "Invalid password.")
          (lib.verify_password password full.password_hash))

  abbrev pub set_codes : List RecoveryCode → Step K env (Unit {0})
  set_codes codes w = (record w { view = record w.view { recovery_codes = codes } }, next tt)

  unfoldable pub clear_second_factor : User → Step K env (Unit {0})
  clear_second_factor current = do
    begin_transaction K env internal_error
    ensure (not (env.fails codes_delete)) internal_error
    λ w. set_codes (RecoveryCodes.delete_all_for_user current.id w.view.recovery_codes).0 w
    λ w.
        set_users K env internal_error
          (clear_totp (env.fails totp_update) current.id w.view.core.users) w
    log K env audit_insert (own_entry "mfa.self_reset" current env.ip "success") internal_error
    log K env second_insert (own_entry "user.revoke_before_set" current env.ip "success")
        internal_error
    commit_transaction K env internal_error

  -- The sessions are deleted and the tokens revoked, both with errors that are only logged.
  unfoldable pub post_disable_mfa : Step K env ⊥
  post_disable_mfa = do
    current ← value_or env.current_user not_authenticated
    check_owner current
    clear_second_factor current
    λ w. (record w { kv = (delete_all_for_user K config.session_ttl current.id w.kv).0 }, next tt)
    λ w. (record w { kv = (revoke_before_set_now K current.id env.now w.kv).0 }, next tt)
    respond mfa_disabled

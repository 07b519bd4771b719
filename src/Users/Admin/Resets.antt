-- ===== src/Users/Admin/Resets.antt =====
-- ResetPassword and ResetMFA of internal/users/handler.go.
use schlass.Base.{
  true, not, Option, List, String, Result, ok, err, next, respond, give, ensure, value_or, ◌>>=◌,
  ◌>>◌,
}
use schlass.Store.Tables.{User}
use schlass.Valkey.Server.{Valkey}
use schlass.Users.Store.{UserError, get_by_id, set_password_hash, clear_totp}
use schlass.Users.Lockout.{clear_lockout_for_password_change}
use schlass.Auth.RecoveryCodes.{RecoveryCode}
use schlass.Auth.RecoveryCodes
use schlass.Auth.Env.{
  Lib, Config, Env, user_query, fresh_query, codes_delete, password_update, lockout_update,
  totp_update, Reply, failure, password_given, user_changed, crashed, user_dto,
}
use schlass.Auth.Steps.{internal_error, with_users, is_enrolled, Step, begin_transaction, set_users}
use schlass.Users.Admin.{
  admin_entry, begin_current, commit_two, parse_user_id, reject_self_op, found_or, read_user,
  store_users, without_sessions, revoke_tokens,
}

abbrev pub not_enrolled : Reply
not_enrolled = failure 400 "MFA_NOT_ENROLLED" "This user has not enrolled in MFA."

module _ (K : Valkey) (lib : Lib) (config : Config) (env : Env) where
  -- The password is a temporary one, which must be changed at the next login.
  unfoldable pub reset_row : (id hash : String) → Step K env (Unit {0})
  reset_row id hash = do
    existing ← read_user K lib config env id
    λ w.
        store_users K lib config env
          (set_password_hash (env.fails password_update) env.sql_now id hash true w.view.core.users)
          w
    ensure (not (env.fails lockout_update)) internal_error
    λ w. (
      record w {
        view =
            with_users (clear_lockout_for_password_change env.sql_now id w.view.core.users) w.view;
      },
      next tt,
    )

  -- `password` is the one that is generated; the body of the request is not read.
  unfoldable pub reset_password : (raw : String) (password : Option String) → Step K env ⊥
  unfolding reject_self_op
  reset_password raw password = do
    id ← parse_user_id K lib config env raw
    reject_self_op K lib config env id
    plaintext ← value_or password internal_error
    hash ← value_or (lib.hash_password plaintext) internal_error
    current ← begin_current K lib config env
    reset_row id hash
    commit_two K lib config env (admin_entry "user.password_reset" current id env.ip)
        (admin_entry "user.revoke_before_set" current id env.ip)
    without_sessions K lib config env id
    revoke_tokens K lib config env id
    respond (password_given plaintext)

  abbrev pub set_codes : List RecoveryCode → Step K env (Unit {0})
  set_codes codes w = (record w { view = record w.view { recovery_codes = codes } }, next tt)

  unfoldable pub clear_row : String → Step K env (Unit {0})
  clear_row id = do
    ensure (not (env.fails codes_delete)) internal_error
    λ w. set_codes (RecoveryCodes.delete_all_for_user id w.view.recovery_codes).0 w
    λ w. set_users K env internal_error (clear_totp (env.fails totp_update) id w.view.core.users) w

  -- The last query's error is dropped, and its missing row is read.
  abbrev pub shown : Result UserError User → Step K env ⊥
  shown (ok u) = respond (user_changed (user_dto u))
  shown (err e) = respond crashed

  unfoldable pub find_enrolled : String → Step K env User
  find_enrolled id = do
    target ← λ w. found_or K lib config env (get_by_id (env.fails user_query) id w.db.core.users) w
    ensure (is_enrolled target) not_enrolled
    give target

  unfoldable pub reset_mfa : (raw : String) → Step K env ⊥
  unfolding reject_self_op
  reset_mfa raw = do
    id ← parse_user_id K lib config env raw
    reject_self_op K lib config env id
    target ← find_enrolled id
    begin_transaction K env internal_error
    clear_row id
    acting ← value_or env.current_user crashed
    commit_two K lib config env (admin_entry "mfa.reset" acting id env.ip)
        (admin_entry "user.revoke_before_set" acting id env.ip)
    without_sessions K lib config env id
    revoke_tokens K lib config env id
    λ w. shown (get_by_id (env.fails fresh_query) id w.db.core.users) w

-- ===== src/Users/Admin/Status.antt =====
-- Disable, Enable and Delete of internal/users/handler.go.
use schlass.Base.{
  Bool, false, not, none, some, List, String, ◌==◌, ◌⧺◌, nat_eq, next, respond, ensure, ◌>>=◌, ◌>>◌,
}
use schlass.Store.Tables.{User, Client, AuthCode, Entry}
use schlass.Store.Sql.{count_where, update_where, select_where}
use schlass.Valkey.Server.{Valkey}
use schlass.Users.Store.{set_status, delete}
use schlass.Auth.Env.{Lib, Config, Env, status_update, user_delete, scrub_query, Tables, no_content}
use schlass.Auth.Steps.{internal_error, Step}
use schlass.Users.Admin.{
  admin_entry, begin_current, commit_one, commit_two, parse_user_id, reject_self_op, read_user,
  lock_super_admins_for_update, store_users, enforce_if, without_sessions, revoke_tokens,
}

-- What the function audit_log_pseudonymize_user writes in place of an email.
abbrev pub pseudonym : String → String
pseudonym id = "deleted:" ⧺ id

abbrev pub acted : String → Entry → Bool
acted id e = elim e.actor_id [ none ↦ false | some actor ↦ actor == id ]

abbrev pub scrubbed : String → Entry → Entry
scrubbed id e = record e { actor_email = pseudonym id }

-- PseudonymizeUser. Rows that have the pseudonym are left alone, with the same outcome.
unfoldable pub pseudonymize_user : String → List Entry → List Entry
pseudonymize_user id entries = update_where (acted id) (scrubbed id) entries

-- A row of authorization_codes refers to the user, which the foreign key forbids to delete.
unfoldable pub is_referenced : String → List AuthCode → Bool
is_referenced id codes = not (nat_eq (count_where (λ c. c.user_id == id) codes) 0)

abbrev pub created_by : String → Client → Bool
created_by id c = elim c.created_by_user_id [ none ↦ false | some creator ↦ creator == id ]

abbrev pub without_creator : Client → Client
without_creator c = record c { created_by_user_id = none }

-- The rows that the database deletes with the user, and the column that it sets to NULL.
abbrev pub cascaded : String → Tables → Tables
cascaded id t = record t {
  core = record t.core { clients = update_where (created_by id) without_creator t.core.clients };
  recovery_codes = select_where (λ c. not (c.user_id == id)) t.recovery_codes;
  reset_tokens = select_where (λ r. not (r.user_id == id)) t.reset_tokens;
}

module _ (K : Valkey) (lib : Lib) (config : Config) (env : Env) where
  abbrev pub begin_as : String → Step K env User
  unfolding reject_self_op begin_current
  begin_as id = do reject_self_op K lib config env id; begin_current K lib config env

  -- The status, which must leave an active super_admin where the user was a super_admin.
  unfoldable pub disable_row : String → Step K env (Unit {0})
  disable_row id = do
    lock_super_admins_for_update K lib config env
    existing ← read_user K lib config env id
    λ w.
        store_users K lib config env
          (set_status (env.fails status_update) env.sql_now id "disabled" w.view.core.users) w
    enforce_if K lib config env (existing.role == "super_admin")

  unfoldable pub disable : (raw : String) → Step K env ⊥
  unfolding reject_self_op begin_current
  disable raw = do
    id ← parse_user_id K lib config env raw
    current ← begin_as id
    disable_row id
    commit_two K lib config env (admin_entry "user.disabled" current id env.ip)
        (admin_entry "user.revoke_before_set" current id env.ip)
    without_sessions K lib config env id
    revoke_tokens K lib config env id
    respond no_content

  unfoldable pub enable_row : String → Step K env (Unit {0})
  enable_row id = do
    existing ← read_user K lib config env id
    λ w.
        store_users K lib config env
          (set_status (env.fails status_update) env.sql_now id "active" w.view.core.users) w

  unfoldable pub enable : (raw : String) → Step K env ⊥
  enable raw = do
    id ← parse_user_id K lib config env raw
    current ← begin_current K lib config env
    enable_row id
    commit_one K lib config env (admin_entry "user.enabled" current id env.ip)
    respond no_content

  -- The row, with the rows of other tables that the database deletes with it.
  unfoldable pub delete_row : String → Step K env (Unit {0})
  delete_row id = do
    lock_super_admins_for_update K lib config env
    target ← read_user K lib config env id
    λ w. ensure (not (is_referenced id w.view.core.codes)) internal_error w
    λ w.
        store_users K lib config env (delete (env.fails user_delete) id w.view.core.users)
          (record w { view = cascaded id w.view })
    enforce_if K lib config env (target.role == "super_admin")

  -- The audit rows of the user lose the email before the two rows of the deletion are added.
  unfoldable pub scrub_audit : String → Step K env (Unit {0})
  scrub_audit id = do
    ensure (not (env.fails scrub_query)) internal_error
    λ w. (
      record w {
        view = record w.view {
          core = record w.view.core { audit_logs = pseudonymize_user id w.view.core.audit_logs };
        };
      },
      next tt,
    )

  unfoldable pub delete_user : (raw : String) → Step K env ⊥
  unfolding reject_self_op begin_current
  delete_user raw = do
    id ← parse_user_id K lib config env raw
    current ← begin_as id
    delete_row id
    scrub_audit id
    commit_two K lib config env (admin_entry "user.audit_pseudonymized" current id env.ip)
        (admin_entry "user.deleted" current id env.ip)
    without_sessions K lib config env id
    respond no_content

-- ===== src/Users/Admin.antt =====
-- The handlers of internal/users/handler.go: what they share. Each stands in a module below, without List.
pub mod Write
pub mod Status
pub mod Resets
pub mod Sessions
pub mod Tables
pub mod Phases
pub mod LastAdmin
pub mod Erasure
use schlass.Base.{
  ℕ, Bool, true, false, not, ◌&&◌, ◌||◌, Option, none, some, List, [], ◌∷◌, String, ◌==◌, ◌⧺◌,
  nat_eq, if◌then◌else◌, has_char, Result, ok, err, next, reply, respond, give, ensure, value_or,
  ◌>>=◌, ◌>>◌,
}
use schlass.Store.Tables.{User, Entry}
use schlass.Store.Sql.{count_where, update_where}
use schlass.Valkey.Server.{Valkey}
use schlass.Session.Store.{delete_all_for_user}
use schlass.Session.RevokeBefore.{revoke_before_set_now}
use schlass.Users.Store.{UserError, user_not_found, query_failed, get_by_id}
use schlass.Auth.Env.{
  Lib, Config, Env, Call, user_query, lock_query, admins_query, audit_insert, second_insert, Reply,
  failure, World,
}
use schlass.Auth.Steps.{
  internal_error, not_authenticated, user_entry, with_users, Step, begin_transaction,
  commit_transaction, log,
}

abbrev pub user_missing : Reply
user_missing = failure 404 "USER_NOT_FOUND" "User not found."

abbrev pub self_operation : Reply
self_operation =
    failure 400 "CANNOT_OPERATE_ON_SELF" "You cannot perform this action on your own account."

abbrev pub last_admin : Reply
last_admin =
    failure 400 "LAST_ADMIN_LOCKOUT" "Cannot leave the system without an active super_admin."

abbrev pub email_exists : Reply
email_exists = failure 409 "EMAIL_ALREADY_EXISTS" "A user with that email already exists."

abbrev pub validation_error : String → Reply
validation_error message = failure 400 "VALIDATION_ERROR" message

-- role = 'super_admin' AND status = 'active'
abbrev pub is_active_admin : User → Bool
is_active_admin u = u.role == "super_admin" && u.status == "active"

-- 64 is the code of @.
abbrev pub is_email : String → Bool
is_email text = not (text == "") && has_char 64 text

abbrev pub is_role : String → Bool
is_role role = role == "super_admin" || role == "user"

-- An entry of the current user about a user.
abbrev pub admin_entry : (event : String) → User → (target ip : String) → Entry
admin_entry event current target ip =
    user_entry event (some current.id) current.email target ip "success"

module _ (K : Valkey) (lib : Lib) (config : Config) (env : Env) where
  -- `raw` is the id of the path.
  abbrev pub parse_user_id : (raw : String) → Step K env String
  parse_user_id raw = value_or (lib.parse_uuid raw) (validation_error "Invalid user id.")

  unfoldable pub reject_self_op : (target : String) → Step K env (Unit {0})
  reject_self_op target = do
    current ← value_or env.current_user not_authenticated
    ensure (not (current.id == target)) self_operation

  -- The current user, and pool.Begin.
  unfoldable pub begin_current : Step K env User
  begin_current = do
    current ← value_or env.current_user not_authenticated
    begin_transaction K env internal_error
    give current

  -- The answer of a query for the user, and of an update of the row.
  abbrev pub found_or : Result UserError User → Step K env User
  found_or (ok u) = give u
  found_or (err user_not_found) = respond user_missing
  found_or (err query_failed) = respond internal_error

  abbrev pub store_users : List User × Result UserError (Unit {0}) → Step K env (Unit {0})
  store_users (users, ok done) w = (record w { view = with_users users w.view }, next tt)
  store_users (users, err user_not_found) w = (w, reply user_missing)
  store_users (users, err query_failed) w = (w, reply internal_error)

  abbrev pub read_user : String → Step K env User
  read_user id w = found_or (get_by_id (env.fails user_query) id w.view.core.users) w

  -- The lock of the rows has no other effect, since requests are served one at a time.
  abbrev pub lock_super_admins_for_update : Step K env (Unit {0})
  lock_super_admins_for_update = ensure (not (env.fails lock_query)) internal_error

  abbrev pub remaining_active_super_admins : List User → ℕ
  remaining_active_super_admins users = count_where is_active_admin users

  unfoldable pub enforce_last_admin_lockout : Step K env (Unit {0})
  enforce_last_admin_lockout = do
    ensure (not (env.fails admins_query)) internal_error
    λ w. ensure (not (nat_eq (remaining_active_super_admins w.view.core.users) 0)) last_admin w

  abbrev pub enforce_if : Bool → Step K env (Unit {0})
  unfolding enforce_last_admin_lockout
  enforce_if true = enforce_last_admin_lockout
  enforce_if false = give tt

  -- After the commit, with errors that are only logged: the sessions go, and the tokens are revoked.
  abbrev pub without_sessions : String → Step K env (Unit {0})
  without_sessions id w =
      (record w { kv = (delete_all_for_user K config.session_ttl id w.kv).0 }, next tt)

  abbrev pub revoke_tokens : String → Step K env (Unit {0})
  revoke_tokens id w = (record w { kv = (revoke_before_set_now K id env.now w.kv).0 }, next tt)

  -- The audit entries of an operation, and the commit.
  unfoldable pub commit_one : Entry → Step K env (Unit {0})
  commit_one entry = do
    log K env audit_insert entry internal_error
    commit_transaction K env internal_error

  unfoldable pub commit_two : Entry → Entry → Step K env (Unit {0})
  commit_two entry other = do
    log K env audit_insert entry internal_error
    log K env second_insert other internal_error
    commit_transaction K env internal_error

-- ===== src/Users/Admin/Write.antt =====
-- Create and Update of internal/users/handler.go.
use schlass.Base.{
  Bool, true, false, not, ◌&&◌, ◌||◌, Option, none, some, List, String, ◌==◌, Result, ok, err, next,
  reply, respond, give, ensure, value_or, nat_eq, ◌>>=◌, ◌>>◌,
}
use schlass.Store.Tables.{User}
use schlass.Store.Sql.{count_where}
use schlass.Valkey.Server.{Valkey}
use schlass.Users.Store.{UserError, get_by_id, create, update}
use schlass.Auth.Env.{
  Lib, Config, Env, user_insert, row_update, fresh_query, user_created, user_changed, user_dto,
}
use schlass.Auth.Steps.{internal_error, invalid_body, with_users, Step, user_or}
use schlass.Users.Admin.{
  validation_error, email_exists, is_email, is_role, admin_entry, begin_current, commit_one,
  parse_user_id, reject_self_op, read_user, lock_super_admins_for_update, store_users, enforce_if,
}

pub record CreateUserRequest : Type 0 where
  pub email : String
  pub role : String

pub record UpdateUserRequest : Type 0 where
  pub email : Option String
  pub role : Option String

abbrev pub or_else : Option String → String → String
or_else none old = old
or_else (some new) old = new

abbrev pub is_given : Option String → Bool
is_given none = false
is_given (some text) = true

module _ (K : Valkey) (lib : Lib) (config : Config) (env : Env) where
  open lib use {to_lower, hash_password}

  -- The index users_email_lower_key: a row with another id has the email.
  abbrev pub is_taken : (email id : String) → List User → Bool
  is_taken email id users =
      not
        (nat_eq (count_where (λ u. to_lower u.email == to_lower email && not (u.id == id)) users) 0)

  abbrev pub inserted : List User × Result UserError String → Step K env String
  inserted (users, ok id) w = (record w { view = with_users users w.view }, next id)
  inserted (users, err e) w = (w, reply internal_error)

  -- `body` is the request, `password` the password that is generated for the user.
  unfoldable pub check_create : (body : Option CreateUserRequest) → Step K env CreateUserRequest
  check_create body = do
    req ← value_or body invalid_body
    ensure (is_email req.email) (validation_error "Invalid email.")
    ensure (is_role req.role) (validation_error "role must be 'super_admin' or 'user'.")
    give req

  unfoldable pub insert_user : (email hash role : String) → Step K env String
  insert_user email hash role = do
    λ w. ensure (not (is_taken email (env.ids 0) w.view.core.users)) email_exists w
    λ w.
        inserted
          (create (env.fails user_insert) env.sql_now (env.ids 0) email hash role true
            w.view.core.users)
          w

  unfoldable pub create_user :
      (body : Option CreateUserRequest) (password : Option String) → Step K env ⊥
  create_user body password = do
    req ← check_create body
    plaintext ← value_or password internal_error
    hash ← value_or (hash_password plaintext) internal_error
    current ← begin_current K lib config env
    id ← insert_user (to_lower req.email) hash req.role
    commit_one K lib config env (admin_entry "user.created" current id env.ip)
    u ← λ w. user_or K env internal_error (get_by_id (env.fails fresh_query) id w.db.core.users) w
    respond (user_created (user_dto u) plaintext)

  abbrev pub valid_email : Option String → Step K env (Unit {0})
  valid_email none = give tt
  valid_email (some text) = ensure (is_email text) (validation_error "Invalid email.")

  abbrev pub valid_role : Option String → Step K env (Unit {0})
  valid_role none = give tt
  valid_role (some role) =
      ensure (is_role role) (validation_error "role must be 'super_admin' or 'user'.")

  abbrev pub lowered : Option String → Option String
  lowered none = none
  lowered (some text) = some (to_lower text)

  -- The own role cannot be changed.
  abbrev pub not_own_role : String → Option String → Step K env (Unit {0})
  not_own_role id none = give tt
  not_own_role id (some role) = reject_self_op K lib config env id

  unfoldable pub check_update :
      String → (body : Option UpdateUserRequest) → Step K env UpdateUserRequest
  unfolding reject_self_op
  check_update id body = do
    req ← value_or body invalid_body
    ensure (is_given req.email || is_given req.role)
        (validation_error "At least one of email or role is required.")
    valid_email req.email
    valid_role req.role
    not_own_role id req.role
    give req

  abbrev pub is_demoting : User → UpdateUserRequest → Bool
  is_demoting existing req =
      existing.role == "super_admin" && not (or_else req.role existing.role == "super_admin")

  abbrev pub lock_if : Bool → Step K env (Unit {0})
  lock_if true = lock_super_admins_for_update K lib config env
  lock_if false = give tt

  -- A demotion must leave an active super_admin.
  unfoldable pub update_row : String → User → UpdateUserRequest → Step K env (Unit {0})
  update_row id existing req = do
    lock_if (is_demoting existing req)
    λ w.
        ensure (not (is_taken (or_else (lowered req.email) existing.email) id w.view.core.users))
          email_exists w
    λ w.
        store_users K lib config env
          (update (env.fails row_update) env.sql_now id (or_else (lowered req.email) existing.email)
            (or_else req.role existing.role) w.view.core.users)
          w
    enforce_if K lib config env (is_demoting existing req)

  unfoldable pub update_user : (raw : String) (body : Option UpdateUserRequest) → Step K env ⊥
  update_user raw body = do
    id ← parse_user_id K lib config env raw
    req ← check_update id body
    current ← begin_current K lib config env
    existing ← read_user K lib config env id
    update_row id existing req
    commit_one K lib config env (admin_entry "user.updated" current id env.ip)
    u ← λ w. user_or K env internal_error (get_by_id (env.fails fresh_query) id w.db.core.users) w
    respond (user_changed (user_dto u))

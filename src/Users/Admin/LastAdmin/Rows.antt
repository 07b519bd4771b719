-- ===== src/Users/Admin/LastAdmin/Rows.antt =====
-- What Create, Update, ResetPassword and ResetMFA make of the table.
use schlass.Base.{
  ◌≤◌, ◌≡◌, refl, true, false, Option, none, some, List, String, ◌==◌, Ends, arith, Bool-cases, inl,
  inr,
}
use schlass.Store.Tables.{User}
use schlass.Store.Sql.{find, update_where, count_where}
use schlass.Valkey.Server.{Valkey}
use schlass.Users.Store.{
  has_id, get_by_id, create, update, set_password_hash, clear_totp, with_password, without_totp,
}
use schlass.Users.Lockout.{clear_lockout_for_password_change, reset}
use schlass.Auth.Env.{Lib, Config, Env, World}
use schlass.Users.Admin.{is_active_admin, read_user, enforce_last_admin_lockout, reject_self_op}
use schlass.Users.Admin.Write.{
  CreateUserRequest, UpdateUserRequest, or_else, lowered, check_create, insert_user, check_update,
  is_demoting, update_row,
}
use schlass.Users.Admin.Resets.{reset_row, clear_row}
use schlass.Users.Admin.Tables.{IsAdministered, plain_update, harmless_update, update_where-IsKeyed}
use schlass.Users.Admin.Phases.{Fresh}

module _ (K : Valkey) (lib : Lib) (config : Config) (env : Env) (w : World K) where
  abbrev pub users : List User
  users = w.db.core.users

  pub check_create-Ends :
      (body : Option CreateUserRequest)
      → Ends (λ _ s. s ≡ w) (λ _ s. s.db ≡ w.db) (check_create K lib config env body w)
  unfolding check_create
  check_create-Ends body = ground arith

  pub insert_user-Ends :
      (email hash role : String) (s : World K)
      → Fresh K env w s
      → Ends
          (λ _ s'.
            (s'.db ≡ w.db)
            × (s'.view.core.users
                ≡ (create false env.sql_now (env.ids 0) email hash role true users).0))
          (λ _ s'. s'.db ≡ w.db)
          (insert_user K lib config env email hash role s)
  unfolding insert_user create
  insert_user-Ends email hash role s (db, view) = ground arith

  pub created_safe :
      (email hash role : String)
      → find (has_id (env.ids 0)) users ≡ none
      → IsAdministered users
      → IsAdministered (create false env.sql_now (env.ids 0) email hash role true users).0
  unfolding create count_where
  created_safe email hash role fresh healthy =
      let administered = healthy.administered in
      record { keyed = (fresh, healthy.keyed); administered = ground arith }

  abbrev pub updated : User → UpdateUserRequest → User → User
  updated existing req u = record u {
    email = or_else (lowered K lib config env req.email) existing.email;
    role = or_else req.role existing.role;
    updated_at = env.sql_now;
  }

  pub update_row-Ends :
      (id : String) (existing : User) (req : UpdateUserRequest) (s : World K)
      → Fresh K env w s
      → Ends
          (λ _ s'.
            (s'.db ≡ w.db)
            × (s'.view.core.users ≡ update_where (has_id id) (updated existing req) users)
            × (is_demoting K lib config env existing req ≡ true
                → 1 ≤ count_where is_active_admin s'.view.core.users))
          (λ _ s'. s'.db ≡ w.db)
          (update_row K lib config env id existing req s)
  unfolding update_row enforce_last_admin_lockout update
  update_row-Ends id existing req s (db, view) = ground arith

  pub reset_row-Ends :
      (id hash : String) (s : World K)
      → Fresh K env w s
      → Ends
          (λ _ s'.
            (s'.db ≡ w.db)
            × (s'.view.core.users
                ≡ clear_lockout_for_password_change env.sql_now id
                    (update_where (has_id id) (with_password env.sql_now hash true) users)))
          (λ _ s'. s'.db ≡ w.db)
          (reset_row K lib config env id hash s)
  unfolding reset_row get_by_id set_password_hash
  reset_row-Ends id hash s (db, view) = ground arith

  pub clear_row-Ends :
      (id : String) (s : World K)
      → Fresh K env w s
      → Ends
          (λ _ s'.
            (s'.db ≡ w.db) × (s'.view.core.users ≡ update_where (has_id id) without_totp users))
          (λ _ s'. s'.db ≡ w.db)
          (clear_row K lib config env id s)
  unfolding clear_row clear_totp
  clear_row-Ends id s (db, view) = ground arith

  pub check_update-Ends :
      (id : String) (body : Option UpdateUserRequest)
      → Ends (λ _ s. s ≡ w) (λ _ s. s.db ≡ w.db) (check_update K lib config env id body w)
  unfolding check_update reject_self_op
  check_update-Ends id body = ground arith

  pub read_user-Ends :
      (id : String) (s : World K)
      → Fresh K env w s
      → Ends
          (λ existing s'. Fresh K env w s' × (find (has_id id) users ≡ some existing))
          (λ _ s'. s'.db ≡ w.db)
          (read_user K lib config env id s)
  unfolding get_by_id
  read_user-Ends id s (db, view) = ground arith

  keeps_role :
      (existing : User) (req : UpdateUserRequest)
      → is_demoting K lib config env existing req ≡ false
      → (existing.role == "super_admin") ≡ true
      → (u : User) → is_active_admin u ≡ true
      → is_active_admin (updated existing req u) ≡ true
  keeps_role existing req no_demotion admin u active = ground arith

  pub updated_safe :
      (id : String) (existing : User) (req : UpdateUserRequest)
      → IsAdministered users
      → find (has_id id) users ≡ some existing
      → (is_demoting K lib config env existing req ≡ true
          → 1 ≤ count_where is_active_admin (update_where (has_id id) (updated existing req) users))
      → IsAdministered (update_where (has_id id) (updated existing req) users)
  updated_safe id existing req healthy found counted =
      elim (Bool-cases (is_demoting K lib config env existing req)) [
        | inl demoting ↦ record {
          keyed =
              update_where-IsKeyed (has_id id) (updated existing req) users (λ u. refl)
                healthy.keyed;
          administered = counted demoting;
        }
        | inr no_demotion ↦ elim (Bool-cases (existing.role == "super_admin")) [
          | inl admin ↦
              harmless_update id (updated existing req) users healthy (λ u. refl)
                (keeps_role existing req no_demotion admin)
          | inr plain ↦
              plain_update id (updated existing req) users existing healthy (λ u. refl) found
                (rw plain refl)
        ]
      ]

  same_rank :
      (u u' : User)
      → u.role ≡ u'.role
      → u.status ≡ u'.status
      → is_active_admin u ≡ true
      → is_active_admin u' ≡ true
  same_rank u u' role status admin = rw (← role, ← status) admin

  pub reset_safe :
      (id hash : String)
      → IsAdministered users
      → IsAdministered (
          clear_lockout_for_password_change env.sql_now id
            (update_where (has_id id) (with_password env.sql_now hash true) users))
  unfolding clear_lockout_for_password_change
  reset_safe id hash healthy =
      harmless_update id (reset env.sql_now) _
        (harmless_update id (with_password env.sql_now hash true) users healthy (λ u. refl)
          (λ u admin. same_rank u (with_password env.sql_now hash true u) refl refl admin))
        (λ u. refl) (λ u admin. same_rank u (reset env.sql_now u) refl refl admin)

  pub cleared_safe :
      (id : String)
      → IsAdministered users
      → IsAdministered (update_where (has_id id) without_totp users)
  cleared_safe id healthy =
      harmless_update id without_totp users healthy (λ u. refl)
        (λ u admin. same_rank u (without_totp u) refl refl admin)

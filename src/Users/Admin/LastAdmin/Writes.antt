-- ===== src/Users/Admin/LastAdmin/Writes.antt =====
-- Create, Update, ResetPassword and ResetMFA keep an active super_admin.
use schlass.Base.{
  ◌≤◌, ◌≡◌, true, false, Option, none, some, List, String, Result, ok, err, Ends, go_on, respond,
}
use schlass.Store.Tables.{User}
use schlass.Store.Sql.{find, update_where, count_where}
use schlass.Valkey.Server.{Valkey}
use schlass.Users.Store.{UserError, has_id, get_by_id, create, with_password}
use schlass.Users.Lockout.{clear_lockout_for_password_change}
use schlass.Auth.Env.{Lib, Config, Env, fresh_query, Reply, World}
use schlass.Auth.Steps.{internal_error, user_or}
use schlass.Users.Admin.{is_active_admin, reject_self_op}
use schlass.Users.Admin.Write.{
  CreateUserRequest, UpdateUserRequest, create_user, is_demoting, update_user,
}
use schlass.Users.Admin.Resets.{reset_password}
use schlass.Users.Admin.Tables.{IsAdministered}
use schlass.Users.Admin.Phases.{
  Fresh, Safe, and_then, parsed, commit_one-Ends, commit_two-Ends, begin_current-Ends,
  reject_self_op-Ends,
}
use schlass.Users.Admin.LastAdmin.Rows.{
  check_create-Ends, insert_user-Ends, created_safe, check_update-Ends, read_user-Ends, updated,
  update_row-Ends, updated_safe, reset_row-Ends, reset_safe,
}

module _ (K : Valkey) (lib : Lib) (config : Config) (env : Env) (w : World K) where
  abbrev users : List User
  users = w.db.core.users

  -- The reply that shows the row after the commit.
  shown-Safe :
      (o : Result UserError User) (answer : User → Reply) (s : World K)
      → IsAdministered s.db.core.users
      → Ends {A = ⊥}
          (λ _ _. ⊥)
          (Safe K env w)
          (go_on (user_or K env internal_error o s) (λ u. respond (answer u)))
  shown-Safe (ok u) answer s h = h
  shown-Safe (err e) answer s h = h

  pub create_user-Safe :
      (body : Option CreateUserRequest) (password : Option String)
      → find (has_id (env.ids 0)) users ≡ none
      → IsAdministered users
      → Ends {A = ⊥} (λ _ _. ⊥) (Safe K env w) (create_user K lib config env body password w)
  unfolding create_user create
  create_user-Safe body password fresh healthy =
      and_then K env w {A = CreateUserRequest} (λ _ s. s ≡ w) _ _ healthy
        (check_create-Ends K lib config env w body)
        λ req s same. rw same (
          and_then K env w {A = String} (λ _ s. s ≡ w) _ _ healthy (parsed K env w password _)
            λ plaintext s same. rw same (
              and_then K env w {A = String} (λ _ s. s ≡ w) _ _ healthy
                (parsed K env w (lib.hash_password plaintext) _)
                λ hash s same. rw same (
                  and_then K env w {A = User} (λ _ s. Fresh K env w s) _ _ healthy
                    (begin_current-Ends K lib config env w)
                    λ current s₁ now_open.
                      and_then K env w {A = String}
                        (λ _ s.
                          (s.db ≡ w.db)
                          × (s.view.core.users
                              ≡ (create false env.sql_now (env.ids 0) (lib.to_lower req.email) hash
                                  req.role true users).0))
                        _ _ healthy
                        (insert_user-Ends K lib config env w (lib.to_lower req.email) hash req.role
                          s₁ now_open)
                        λ id s₂ (db, view).
                          and_then K env w {A = Unit {0}}
                            (λ _ s.
                              s.db.core.users
                              ≡ (create false env.sql_now (env.ids 0) (lib.to_lower req.email) hash
                                  req.role true users).0)
                            _ _ healthy (commit_one-Ends K lib config env w _ s₂ _ db view)
                            λ _ s₃ is.
                              shown-Safe (get_by_id (env.fails fresh_query) id s₃.db.core.users) _
                                s₃
                                (rw is (
                                  created_safe K lib config env w (lib.to_lower req.email) hash
                                    req.role fresh healthy)))))

  pub update_user-Safe :
      (raw : String) (body : Option UpdateUserRequest)
      → IsAdministered users
      → Ends {A = ⊥} (λ _ _. ⊥) (Safe K env w) (update_user K lib config env raw body w)
  unfolding update_user
  update_user-Safe raw body healthy =
      and_then K env w {A = String} (λ _ s. s ≡ w) _ _ healthy
        (parsed K env w (lib.parse_uuid raw) _)
        λ id s same. rw same (
          and_then K env w {A = UpdateUserRequest} (λ _ s. s ≡ w) _ _ healthy
            (check_update-Ends K lib config env w id body)
            λ req s same. rw same (
              and_then K env w {A = User} (λ _ s. Fresh K env w s) _ _ healthy
                (begin_current-Ends K lib config env w)
                λ current s₁ now_open.
                  and_then K env w {A = User}
                    (λ existing s. Fresh K env w s × (find (has_id id) users ≡ some existing)) _ _
                    healthy (read_user-Ends K lib config env w id s₁ now_open)
                    λ existing s₂ (open₂, found).
                      and_then K env w {A = Unit {0}}
                        (λ _ s.
                          (s.db ≡ w.db)
                          × (s.view.core.users
                              ≡ update_where (has_id id) (updated K lib config env w existing req)
                                  users)
                          × (is_demoting K lib config env existing req ≡ true
                              → 1 ≤ count_where is_active_admin s.view.core.users))
                        _ _ healthy (update_row-Ends K lib config env w id existing req s₂ open₂)
                        λ _ s₃ (db, view, counted).
                          and_then K env w {A = Unit {0}}
                            (λ _ s.
                              s.db.core.users
                              ≡ update_where (has_id id) (updated K lib config env w existing req)
                                  users)
                            _ _ healthy (commit_one-Ends K lib config env w _ s₃ _ db view)
                            λ _ s₄ is.
                              let count : is_demoting K lib config env existing req ≡ true
                                  → 1
                                    ≤ count_where is_active_admin (
                                        update_where (has_id id)
                                          (updated K lib config env w existing req) users) =
                                rw view at counted in
                              shown-Safe (get_by_id (env.fails fresh_query) id s₄.db.core.users) _
                                s₄
                                (rw is (
                                  updated_safe K lib config env w id existing req healthy found
                                    count))))

  pub reset_password-Safe :
      (raw : String) (password : Option String)
      → IsAdministered users
      → Ends {A = ⊥} (λ _ _. ⊥) (Safe K env w) (reset_password K lib config env raw password w)
  unfolding reset_password reject_self_op
  reset_password-Safe raw password healthy =
      and_then K env w {A = String} (λ _ s. s ≡ w) _ _ healthy
        (parsed K env w (lib.parse_uuid raw) _)
        λ id s same. rw same (
          and_then K env w {A = Unit {0}} (λ _ s. s ≡ w) _ _ healthy
            (reject_self_op-Ends K lib config env w id)
            λ _ s same. rw same (
              and_then K env w {A = String} (λ _ s. s ≡ w) _ _ healthy (parsed K env w password _)
                λ plaintext s same. rw same (
                  and_then K env w {A = String} (λ _ s. s ≡ w) _ _ healthy
                    (parsed K env w (lib.hash_password plaintext) _)
                    λ hash s same. rw same (
                      and_then K env w {A = User} (λ _ s. Fresh K env w s) _ _ healthy
                        (begin_current-Ends K lib config env w)
                        λ current s₁ now_open.
                          and_then K env w {A = Unit {0}}
                            (λ _ s.
                              (s.db ≡ w.db)
                              × (s.view.core.users
                                  ≡ clear_lockout_for_password_change env.sql_now id (
                                      update_where (has_id id) (with_password env.sql_now hash true)
                                        users)))
                            _ _ healthy (reset_row-Ends K lib config env w id hash s₁ now_open)
                            λ _ s₂ (db, view).
                              and_then K env w {A = Unit {0}}
                                (λ _ s.
                                  s.db.core.users
                                  ≡ clear_lockout_for_password_change env.sql_now id (
                                      update_where (has_id id) (with_password env.sql_now hash true)
                                        users))
                                _ _ healthy (commit_two-Ends K lib config env w _ _ s₂ _ db view)
                                λ _ s₃ is. rw is (reset_safe K lib config env w id hash healthy)))))

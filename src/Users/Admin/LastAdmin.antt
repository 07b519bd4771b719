-- ===== src/Users/Admin/LastAdmin.antt =====
-- Disable, Enable and Delete keep an active super_admin.
pub mod Rows
pub mod Writes
pub mod Others
pub mod Requests
use schlass.Base.{
  ℕ, ◌≤◌, ◌≡◌, ◌≢◌, refl, sym, ap, Bool, true, false, not, ◌&&◌, ◌||◌, Option, none, some, List, [],
  ◌∷◌, String, ◌==◌, if◌then◌else◌, Result, ok, err, Outcome, next, reply, Ends, Ends-go_on,
  Ends-weaken, Ends-map, go_on, arith, eq_iff, Bool-cases, Option-cases, Result-cases, inl, inr,
  value_or,
}
use schlass.Store.Tables.{User, Entry}
use schlass.Store.Sql.{find, update_where, count_where, select_where}
use schlass.Valkey.Server.{Valkey}
use schlass.Users.Store.{has_id, get_by_id, set_status, delete}
use schlass.Auth.Env.{Lib, Config, Env, Reply, World}
use schlass.Auth.Steps.{Step}
use schlass.Users.Admin.{
  is_active_admin, commit_one, commit_two, enforce_last_admin_lockout, reject_self_op,
}
use schlass.Users.Admin.Status.{
  disable_row, disable, enable_row, enable, scrub_audit, delete_row, delete_user, begin_as,
}
use schlass.Users.Admin.Phases.{
  Fresh, Changed, Safe, and_then, parsed, commit_one-Ends, commit_two-Ends, begin_as-Ends,
  begin_current-Ends, reject_self_op-Ends,
}
use schlass.Users.Admin.Tables.{
  IsAdministered, plain_update, plain_delete, harmless_update, IsCounted, counted_update,
  counted_delete,
}

module _ (K : Valkey) (lib : Lib) (config : Config) (env : Env) (w : World K) where
  abbrev users : List User
  users = w.db.core.users

  abbrev with_status : String → User → User
  with_status status u = record u { status = status; updated_at = env.sql_now }

  disable_row-Ends :
      (id : String) (s : World K)
      → Fresh K env w s
      → Ends
          (λ _ s'. Changed K env w id (update_where (has_id id) (with_status "disabled") users) s')
          (λ _ s'. s'.db ≡ w.db)
          (disable_row K lib config env id s)
  unfolding disable_row enforce_last_admin_lockout get_by_id set_status
  disable_row-Ends id s (db, view) = ground arith

  pub disable-Safe :
      (raw : String)
      → IsAdministered users
      → Ends {A = ⊥} (λ _ _. ⊥) (Safe K env w) (disable K lib config env raw w)
  unfolding disable reject_self_op
  disable-Safe raw healthy =
      and_then K env w {A = String} (λ _ s. s ≡ w) _ _ healthy
        (parsed K env w (lib.parse_uuid raw) _)
        λ id s same. rw same (
          and_then K env w {A = User} (λ _ s. Fresh K env w s) _ _ healthy
            (begin_as-Ends K lib config env w id)
            λ current s₁ fresh.
              and_then K env w {A = Unit {0}}
                (λ _ s.
                  Changed K env w id (update_where (has_id id) (with_status "disabled") users) s)
                _ _ healthy (disable_row-Ends id s₁ fresh)
                λ _ s₂ (db, view, counted).
                  and_then K env w {A = Unit {0}}
                    (λ _ s.
                      s.db.core.users ≡ update_where (has_id id) (with_status "disabled") users)
                    _ _ healthy (commit_two-Ends K lib config env w _ _ s₂ _ db view)
                    λ _ s₃ is. rw is (
                      counted_update id (with_status "disabled") users healthy (λ u. refl) counted))

  enable_row-Ends :
      (id : String) (s : World K)
      → Fresh K env w s
      → Ends
          (λ _ s'.
            (s'.db ≡ w.db)
            × (s'.view.core.users ≡ update_where (has_id id) (with_status "active") users))
          (λ _ s'. s'.db ≡ w.db)
          (enable_row K lib config env id s)
  unfolding enable_row get_by_id set_status
  enable_row-Ends id s (db, view) = ground arith

  still_admin :
      (u : User) → is_active_admin u ≡ true → is_active_admin (with_status "active" u) ≡ true
  still_admin u admin = ground arith

  pub enable-Safe :
      (raw : String)
      → IsAdministered users
      → Ends {A = ⊥} (λ _ _. ⊥) (Safe K env w) (enable K lib config env raw w)
  unfolding enable
  enable-Safe raw healthy =
      and_then K env w {A = String} (λ _ s. s ≡ w) _ _ healthy
        (parsed K env w (lib.parse_uuid raw) _)
        λ id s same. rw same (
          and_then K env w {A = User} (λ _ s. Fresh K env w s) _ _ healthy
            (begin_current-Ends K lib config env w)
            λ current s₁ fresh.
              and_then K env w {A = Unit {0}}
                (λ _ s.
                  (s.db ≡ w.db)
                  × (s.view.core.users ≡ update_where (has_id id) (with_status "active") users))
                _ _ healthy (enable_row-Ends id s₁ fresh)
                λ _ s₂ (db, view).
                  and_then K env w {A = Unit {0}}
                    (λ _ s. s.db.core.users ≡ update_where (has_id id) (with_status "active") users)
                    _ _ healthy (commit_one-Ends K lib config env w _ s₂ _ db view)
                    λ _ s₃ is. rw is (
                      harmless_update id (with_status "active") users healthy (λ u. refl)
                        still_admin))

  delete_row-Ends :
      (id : String) (s : World K)
      → Fresh K env w s
      → Ends
          (λ _ s'. Changed K env w id (select_where (λ u. not (has_id id u)) users) s')
          (λ _ s'. s'.db ≡ w.db)
          (delete_row K lib config env id s)
  unfolding delete_row enforce_last_admin_lockout get_by_id delete
  delete_row-Ends id s (db, view) = ground arith

  scrub_audit-Ends :
      (id : String) (s : World K) (after : List User)
      → s.db ≡ w.db
      → s.view.core.users ≡ after
      → Ends
          (λ _ s'. (s'.db ≡ w.db) × (s'.view.core.users ≡ after))
          (λ _ s'. s'.db ≡ w.db)
          (scrub_audit K lib config env id s)
  unfolding scrub_audit
  scrub_audit-Ends id s after db view = ground arith

  pub delete_user-Safe :
      (raw : String)
      → IsAdministered users
      → Ends {A = ⊥} (λ _ _. ⊥) (Safe K env w) (delete_user K lib config env raw w)
  unfolding delete_user reject_self_op
  delete_user-Safe raw healthy =
      and_then K env w {A = String} (λ _ s. s ≡ w) _ _ healthy
        (parsed K env w (lib.parse_uuid raw) _)
        λ id s same. rw same (
          and_then K env w {A = User} (λ _ s. Fresh K env w s) _ _ healthy
            (begin_as-Ends K lib config env w id)
            λ current s₁ fresh.
              and_then K env w {A = Unit {0}}
                (λ _ s. Changed K env w id (select_where (λ u. not (has_id id u)) users) s) _ _
                healthy (delete_row-Ends id s₁ fresh)
                λ _ s₂ (db, view, counted).
                  and_then K env w {A = Unit {0}}
                    (λ _ s.
                      (s.db ≡ w.db)
                      × (s.view.core.users ≡ select_where (λ u. not (has_id id u)) users))
                    _ _ healthy (scrub_audit-Ends id s₂ _ db view)
                    λ _ s₃ (db₃, view₃).
                      and_then K env w {A = Unit {0}}
                        (λ _ s. s.db.core.users ≡ select_where (λ u. not (has_id id u)) users) _ _
                        healthy (commit_two-Ends K lib config env w _ _ s₃ _ db₃ view₃)
                        λ _ s₄ is. rw is (counted_delete id users healthy counted))

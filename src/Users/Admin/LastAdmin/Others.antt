-- ===== src/Users/Admin/LastAdmin/Others.antt =====
-- ResetMFA and the handlers of sessions keep an active super_admin.
use schlass.Base.{◌≡◌, List, String, Result, ok, err, Outcome, Ends, arith}
use schlass.Store.Tables.{User}
use schlass.Store.Sql.{update_where}
use schlass.Valkey.Server.{Valkey}
use schlass.Users.Store.{UserError, has_id, get_by_id, without_totp}
use schlass.Auth.Env.{Lib, Config, Env, fresh_query, Reply, crashed, World}
use schlass.Auth.Steps.{internal_error}
use schlass.Users.Admin.{commit_one, commit_two, reject_self_op}
use schlass.Users.Admin.Resets.{find_enrolled, shown, reset_mfa}
use schlass.Users.Admin.Tables.{IsAdministered}
use schlass.Users.Admin.Phases.{
  parsed_later, begin_transaction-Ends, Fresh, Safe, and_then, parsed, commit_two-Ends,
  reject_self_op-Ends,
}
use schlass.Users.Admin.LastAdmin.Rows.{clear_row-Ends, cleared_safe}
use schlass.Users.Admin.Sessions.{get, list_sessions, terminate_all_sessions, terminate_session}

module _ (K : Valkey) (lib : Lib) (config : Config) (env : Env) (w : World K) where
  abbrev users : List User
  users = w.db.core.users

  find_enrolled-Ends :
      (id : String) → Ends (λ _ s. s ≡ w) (λ _ s. s.db ≡ w.db) (find_enrolled K lib config env id w)
  unfolding find_enrolled
  find_enrolled-Ends id = ground arith

  shown-Safe :
      (o : Result UserError User) (s : World K)
      → IsAdministered s.db.core.users
      → Ends {A = ⊥} (λ _ _. ⊥) (Safe K env w) (shown K lib config env o s)
  shown-Safe (ok u) s h = h
  shown-Safe (err e) s h = h

  pub reset_mfa-Safe :
      (raw : String)
      → IsAdministered users
      → Ends {A = ⊥} (λ _ _. ⊥) (Safe K env w) (reset_mfa K lib config env raw w)
  unfolding reset_mfa reject_self_op
  reset_mfa-Safe raw healthy =
      and_then K env w {A = String} (λ _ s. s ≡ w) _ _ healthy
        (parsed K env w (lib.parse_uuid raw) _)
        λ id s same. rw same (
          and_then K env w {A = Unit {0}} (λ _ s. s ≡ w) _ _ healthy
            (reject_self_op-Ends K lib config env w id)
            λ _ s same. rw same (
              and_then K env w {A = User} (λ _ s. s ≡ w) _ _ healthy (find_enrolled-Ends id)
                λ target s same. rw same (
                  and_then K env w {A = Unit {0}} (λ _ s. Fresh K env w s) _ _ healthy
                    (begin_transaction-Ends K env w internal_error)
                    λ _ s₁ now_open.
                      and_then K env w {A = Unit {0}}
                        (λ _ s.
                          (s.db ≡ w.db)
                          × (s.view.core.users ≡ update_where (has_id id) without_totp users))
                        _ _ healthy (clear_row-Ends K lib config env w id s₁ now_open)
                        λ _ s₂ (db, view).
                          and_then K env w {A = User} (λ _ s. s ≡ s₂) _ _ healthy
                            (parsed_later K env w env.current_user crashed s₂ db)
                            λ acting s same. rw same (
                              and_then K env w {A = Unit {0}}
                                (λ _ s.
                                  s.db.core.users ≡ update_where (has_id id) without_totp users)
                                _ _ healthy (commit_two-Ends K lib config env w _ _ s₂ _ db view)
                                λ _ s₃ is.
                                  let after = cleared_safe K lib config env w id healthy in
                                  shown-Safe (get_by_id (env.fails fresh_query) id s₃.db.core.users)
                                    _ (rw is after)))))

  -- What the requests for sessions leave of the users.
  abbrev pub Kept : {A : Type 0} → World K × Outcome Reply A → Type 0
  Kept m = m.0.db.core.users ≡ users

  pub get-Kept : (raw : String) → Kept (get K lib config env raw w)
  unfolding get
  get-Kept raw = ground arith

  pub list_sessions-Kept : (raw : String) → Kept (list_sessions K lib config env raw w)
  unfolding list_sessions
  list_sessions-Kept raw = ground arith

  pub terminate_all_sessions-Kept :
      (raw : String) → Kept (terminate_all_sessions K lib config env raw w)
  unfolding terminate_all_sessions commit_two
  terminate_all_sessions-Kept raw = ground arith

  pub terminate_session-Kept :
      (raw token : String) → Kept (terminate_session K lib config env raw token w)
  unfolding terminate_session commit_one
  terminate_session-Kept raw token = ground arith

-- ===== src/Users/Admin/Sessions.antt =====
-- Get, ListSessions, TerminateAllSessions and TerminateSession of internal/users/handler.go.
use schlass.Base.{
  not, List, [], String, ◌==◌, Result, ok, err, next, respond, ensure, value_or, ◌>>=◌, ◌>>◌,
}
use schlass.Valkey.Keys.{Session}
use schlass.Valkey.Server.{Valkey}
use schlass.Session.Store.{SessionError, list_by_user, delete}
use schlass.Users.Store.{get_by_id}
use schlass.Auth.Env.{
  Lib, Config, Env, user_query, user_shown, sessions_listed, no_content, crashed, user_dto,
}
use schlass.Auth.Steps.{internal_error, Step, begin_transaction}
use schlass.Users.Admin.{
  validation_error, admin_entry, commit_one, commit_two, parse_user_id, found_or, without_sessions,
  revoke_tokens,
}

-- An outage of the session store shows as no session.
abbrev pub or_none : Result SessionError (List (String × Session)) → List (String × Session)
or_none (ok sessions) = sessions
or_none (err e) = []

module _ (K : Valkey) (lib : Lib) (config : Config) (env : Env) where
  unfoldable pub get : (raw : String) → Step K env ⊥
  get raw = do
    id ← parse_user_id K lib config env raw
    u ← λ w. found_or K lib config env (get_by_id (env.fails user_query) id w.db.core.users) w
    λ w. respond (user_shown (user_dto u) (or_none (list_by_user K config.session_ttl id w.kv))) w

  abbrev pub listed : Result SessionError (List (String × Session)) → Step K env ⊥
  listed (ok sessions) = respond (sessions_listed sessions)
  listed (err e) = respond internal_error

  unfoldable pub list_sessions : (raw : String) → Step K env ⊥
  list_sessions raw = do
    id ← parse_user_id K lib config env raw
    λ w. listed (list_by_user K config.session_ttl id w.kv) w

  -- The user of the request is read without a test, in the audit entries.
  unfoldable pub terminate_all_sessions : (raw : String) → Step K env ⊥
  terminate_all_sessions raw = do
    id ← parse_user_id K lib config env raw
    begin_transaction K env internal_error
    current ← value_or env.current_user crashed
    commit_two K lib config env (admin_entry "user.sessions_terminated" current id env.ip)
        (admin_entry "user.revoke_before_set" current id env.ip)
    without_sessions K lib config env id
    revoke_tokens K lib config env id
    respond no_content

  abbrev pub without_session : String → String → Step K env (Unit {0})
  without_session id token w =
      (record w { kv = (delete K config.session_ttl id token w.kv).0 }, next tt)

  unfoldable pub terminate_session : (raw token : String) → Step K env ⊥
  terminate_session raw token = do
    id ← parse_user_id K lib config env raw
    ensure (not (token == "")) (validation_error "Missing token.")
    begin_transaction K env internal_error
    current ← value_or env.current_user crashed
    commit_one K lib config env (admin_entry "session.terminated" current id env.ip)
    without_session id token
    respond no_content

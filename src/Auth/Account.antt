-- ===== src/Auth/Account.antt =====
-- PostLogout and GetMe of internal/auth/handler.go.
use schlass.Base.{
  true, not, ◌&&◌, Option, none, some, String, if◌then◌else◌, Result, ok, err, next, reply, respond,
  value_or, ◌>>=◌, ◌>>◌,
}
use schlass.Store.Tables.{User}
use schlass.Valkey.Server.{Valkey}
use schlass.Session.Store.{SessionError, delete}
use schlass.Auth.RecoveryCodes.{count_unused}
use schlass.Auth.Env.{Config, Env, audit_insert, mfa_query, count_query, signed_out, me, user_dto}
use schlass.Auth.Steps.{
  internal_error, not_authenticated, own_entry, is_enrolled, Step, begin_transaction,
  commit_transaction, log,
}

module _ (K : Valkey) (config : Config) (env : Env) where
  abbrev pub deleted : K.State × Result SessionError (Unit {0}) → Step K env (Unit {0})
  deleted (s, ok done) w = (record w { kv = s }, next tt)
  deleted (s, err e) w = (record w { kv = s }, reply internal_error)

  -- The session of the cookie, if there is one, is deleted.
  unfoldable pub delete_session : User → Option String → Step K env (Unit {0})
  delete_session u none w = (w, next tt)
  delete_session u (some token) w = deleted (delete K config.session_ttl u.id token w.kv) w

  unfoldable pub post_logout : Step K env ⊥
  post_logout = do
    u ← value_or env.current_user not_authenticated
    begin_transaction K env internal_error
    log K env audit_insert (own_entry "logout.completed" u env.ip "success") internal_error
    commit_transaction K env internal_error
    delete_session u env.session_cookie
    respond signed_out

  -- An error of the configuration counts as required; an error of the count leaves it out.
  unfoldable pub get_me : Step K env ⊥
  get_me = do
    u ← value_or env.current_user not_authenticated
    λ w.
        respond
          (me (user_dto u)
            ((if env.fails mfa_query then true else w.db.settings.mfa_required)
              && not (is_enrolled u))
            (if is_enrolled u && not (env.fails count_query)
              then some (count_unused u.id w.db.recovery_codes)
              else none))
          w

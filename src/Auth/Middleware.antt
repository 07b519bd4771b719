-- ===== src/Auth/Middleware.antt =====
-- Middleware and OptionalMiddleware of internal/auth: the user of a session.
pub mod Guarantee
use schlass.Base.{
  Option, none, some, String, ◌==◌, if◌then◌else◌, Result, ok, err, Outcome, next, reply,
}
use schlass.Store.Tables.{User}
use schlass.Valkey.Keys.{Session}
use schlass.Valkey.Server.{Valkey}
use schlass.Session.Store.{SessionError, not_found, get_session, delete}
use schlass.Users.Store.{UserError, user_not_found, query_failed, get_by_id}
use schlass.Auth.Env.{Lib, Config, Env, user_query, audit_insert, Reply, failure, World}
use schlass.Auth.Steps.{
  internal_error, not_authenticated, user_entry, own_entry, Step, log_best_effort,
}

-- What the lookup of a session finds out.
pub data Identity : Type 0 where
  known : User → Identity
  no_session store_failed query_error : Identity

module _ (K : Valkey) (lib : Lib) (config : Config) (env : Env) where
  -- The session goes; the result of that is not looked at.
  abbrev pub drop_session : (user_id token : String) → World K → World K
  drop_session user_id token w = record w {
    kv = (delete K config.session_ttl user_id token w.kv).0;
  }

  -- A session of a user who is gone or disabled is deleted, which is audited on the pool.
  abbrev pub user_of :
      String → Session → String → Result UserError User → World K → World K × Identity
  user_of token session uid (err query_failed) w = (w, query_error)
  user_of token session uid (err user_not_found) w = (
    log_best_effort K env audit_insert (user_entry "session.revoked" none "" uid env.ip "success")
        (drop_session session.user_id token w),
    no_session,
  )
  user_of token session uid (ok u) w =
      if u.status == "disabled"
      then (
        log_best_effort K env audit_insert (own_entry "session.revoked" u env.ip "success")
            (drop_session u.id token w),
        no_session,
      )
      else (w, known u)

  abbrev pub owner_of : String → Session → Option String → World K → World K × Identity
  owner_of token session none w = (drop_session session.user_id token w, no_session)
  owner_of token session (some uid) w =
      user_of token session uid (get_by_id (env.fails user_query) uid w.db.core.users) w

  abbrev pub session_found :
      String → K.State × Result SessionError Session → World K → World K × Identity
  session_found token (s, err not_found) w = (record w { kv = s }, no_session)
  session_found token (s, err e) w = (record w { kv = s }, store_failed)
  session_found token (s, ok session) w =
      owner_of token session (lib.parse_uuid session.user_id) (record w { kv = s })

  unfoldable pub identify : String → World K → World K × Identity
  identify token w =
      session_found token (get_session K config.session_ttl env.session_now token w.kv) w

  abbrev pub authorized : World K × Identity → World K × Outcome Reply User
  authorized (w, known u) = (w, next u)
  authorized (w, no_session) = (w, reply not_authenticated)
  authorized (w, store_failed) =
      (w, reply (failure 503 "SERVICE_UNAVAILABLE" "Service temporarily unavailable."))
  authorized (w, query_error) = (w, reply internal_error)

  -- The handler behind it runs with the user, or the request is refused.
  unfoldable pub middleware : Step K env User
  middleware w = elim env.session_cookie [
    | none ↦ (w, reply not_authenticated)
    | some token ↦ authorized (identify token w)
  ]

  -- The same lookups in OptionalMiddleware, which is written out a second time: the user, or none. The metadata of its audit
  -- entries, which tell them from those of Middleware, are left out like all metadata.
  abbrev pub optional_user_of :
      String → Session → String → Result UserError User → World K → World K × Option User
  optional_user_of token session uid (err user_not_found) w = (
    log_best_effort K env audit_insert (user_entry "session.revoked" none "" uid env.ip "success")
        (record w { kv = (delete K config.session_ttl session.user_id token w.kv).0 }),
    none,
  )
  optional_user_of token session uid (err query_failed) w = (w, none)
  optional_user_of token session uid (ok u) w =
      if u.status == "disabled"
      then (
        log_best_effort K env audit_insert
            (user_entry "session.revoked" (some u.id) u.email u.id env.ip "success")
            (record w { kv = (delete K config.session_ttl u.id token w.kv).0 }),
        none,
      )
      else (w, some u)

  abbrev pub optional_owner_of : String → Session → Option String → World K → World K × Option User
  optional_owner_of token session none w =
      (record w { kv = (delete K config.session_ttl session.user_id token w.kv).0 }, none)
  optional_owner_of token session (some uid) w =
      optional_user_of token session uid (get_by_id (env.fails user_query) uid w.db.core.users) w

  abbrev pub optional_session :
      String → K.State × Result SessionError Session → World K → World K × Option User
  optional_session token (s, err not_found) w = (record w { kv = s }, none)
  optional_session token (s, err e) w = (record w { kv = s }, none)
  optional_session token (s, ok session) w =
      optional_owner_of token session (lib.parse_uuid session.user_id) (record w { kv = s })

  -- The handler behind it always runs, with the user if there is one.
  unfoldable pub optional_middleware : World K → World K × Option User
  optional_middleware w = elim env.session_cookie [
    | none ↦ (w, none)
    | some token ↦
        if token == ""
        then (w, none)
        else optional_session token (get_session K config.session_ttl env.session_now token w.kv) w
  ]

-- ===== src/Token/Shared.antt =====
-- The parts of internal/authserver/token.go that both grants use.
use schlass.Base.{
  ℕ, Bool, true, false, Option, none, some, List, [], ◌∷◌, String, ◌==◌, nat_eq, leb, if◌then◌else◌,
  Result, ok, Outcome, next, reply, Handler, ◌>>◌,
}
use schlass.Store.Tables.{Entry, Db, Client, User, SigningKey}
use schlass.Store.Sql.{find}
use schlass.Valkey.Keys.{Key, token_rate_key}
use schlass.Valkey.Server.{Valkey, expire}
use schlass.Clients.Store.{get_by_id, verify_secret}
use schlass.Oidc.Scopes.{Scopes, to_string}
use schlass.Token.Env.{
  Crypto, Config, Form, secret_query, client_query, begin_tx, audit_insert, commit, side_begin,
  side_insert, side_commit, Env, TokenResponse, Reply, token_error, World,
}

-- audit.Logger.Log: an INSERT.
abbrev pub with_entry : Entry → Db → Db
with_entry e db = record db { audit_logs = e ∷ db.audit_logs }

-- The Entry of an event whose target is a client.
abbrev pub client_entry :
    (event : String) (actor : Option String) (email client_id ip outcome : String)
    (family : Option String)
    → Entry
client_entry event actor email client_id ip outcome family = record {
  event_type = event;
  actor_id = actor;
  actor_email = email;
  target_type = "client";
  target_id = client_id;
  client_id = some client_id;
  ip_address = ip;
  outcome = outcome;
  family_id = family;
}

-- The condition that the status of a user row is active.
abbrev pub is_active : User → Bool
is_active u = u.status == "active"

abbrev pub server_error : String → Reply
server_error description = token_error 500 "server_error" description

abbrev pub invalid_grant : String → Reply
invalid_grant description = token_error 400 "invalid_grant" description

abbrev pub user_by_id : Bool → String → List User → Option User
user_by_id broken id users = if broken then none else find (λ u. u.id == id) users

-- GetActive: the first key whose status is active, if the query succeeds.
abbrev pub active_key : Bool → List SigningKey → Option SigningKey
active_key broken keys = if broken then none else find (λ k. k.status == "active") keys

abbrev pub token_response : (access id refresh : String) → Scopes → ℕ → TokenResponse
token_response access id refresh scopes ttl_secs = record {
  access_token = access;
  token_type = "Bearer";
  expires_in = ttl_secs;
  refresh_token = refresh;
  id_token = id;
  scope = to_string scopes;
}

module _ (K : Valkey) where
  abbrev pub Step : Type 0 → Type 0
  Step A = Handler (World K) Reply A

  abbrev pub pass : {A : Type 0} → A → Step A
  pass a w = (w, next a)

  -- if !condition { writeTokenError(…); return }
  abbrev pub require : Bool → Reply → Step (Unit {0})
  require true r s = (s, next tt)
  require false r s = (s, reply r)

  -- The value, or an early reply where there is none.
  abbrev pub need : {A : Type 0} → Option A → Reply → Step A
  need none r s = (s, reply r)
  need (some a) r s = (s, next a)

  -- pool.Begin
  abbrev pub begin : Env → Reply → Step (Unit {0})
  begin env r w = if env.fails begin_tx then (w, reply r) else (record w { view = w.db }, next tt)

  -- tx.Commit, and the reply that follows it.
  abbrev pub commit_and : Env → (failed done : Reply) → {A : Type 0} → Step A
  commit_and env failed done w =
      if env.fails commit then (w, reply failed) else (record w { db = w.view }, reply done)

  -- auditStore.Log of the success: here a failure is an error.
  abbrev pub log_success : Env → Entry → Step (Unit {0})
  log_success env entry w =
      if env.fails audit_insert
      then (w, reply (server_error "Audit failed."))
      else (record w { view = with_entry entry w.view }, next tt)

  -- writeBestEffortAudit: a transaction of its own, whose failure is only logged.
  unfoldable pub write_best_effort_audit : Env → Entry → World K → World K
  write_best_effort_audit env e w =
      if env.fails side_begin
      then w
      else (if env.fails side_insert
          then w
          else (if env.fails side_commit then w else record w { db = with_entry e w.db }))

  -- The answer of INCR as rateLimitCheck reads it. The error of EXPIRE is dropped.
  abbrev pub rate_answer :
      Key → ℕ → Reply → World K → K.State × Option ℕ → World K × Outcome Reply (Unit {0})
  rate_answer key limit r w (s, none) = (record w { kv = s }, next tt)
  rate_answer key limit r w (s, some count) =
      let s' = if nat_eq count 1 then (K.pipe (expire key 60 ∷ []) s).0 else s in
      if leb count limit then (record w { kv = s' }, next tt) else (record w { kv = s' }, reply r)

  -- rateLimitCheck, and the refusal of its callers. An error of INCR lets the request pass.
  unfoldable pub rate_limit_check : Config → String → Step (Unit {0})
  rate_limit_check config client_id w =
      rate_answer (token_rate_key client_id) config.token_rate_limit
        (token_error 429 "invalid_request" "Rate limit exceeded for this client.") w
        (K.incr (token_rate_key client_id) w.kv)

  -- What both grants do with the answer of VerifySecret.
  abbrev pub client_answer :
      Env → Form → World K → Result (Unit {0}) Bool → World K × Outcome Reply (Unit {0})
  client_answer env form w (ok true) = (w, next tt)
  client_answer env form w _ = (
    write_best_effort_audit env
        (record (client_entry "oidc.client.auth_failed" none "" form.client_id env.ip "failure"
          none) { client_id = none })
        w,
    reply (token_error 401 "invalid_client" "Client authentication failed."),
  )

  -- The client of the form, authenticated by its secret.
  unfoldable pub authenticate_client : Crypto → Env → Form → Step Client
  unfolding write_best_effort_audit
  authenticate_client crypto env form = do
    λ w. client_answer env form w (
        verify_secret crypto.parse_uuid crypto.verify_password (env.fails secret_query) env.now
          form.client_id form.client_secret w.db.clients)
    λ w.
        need (get_by_id crypto.parse_uuid (env.fails client_query) form.client_id w.db.clients)
          (token_error 401 "invalid_client" "Client not found.") w

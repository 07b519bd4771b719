-- ===== src/Token/CodeGrant.antt =====
-- handleAuthorizationCode of internal/authserver/token.go: an authorization code for tokens.
pub mod Conditions
pub mod Guarantee
pub mod Replay
use schlass.Base.{
  ℕ, ◌+◌, ◌-◌, ◌*◌, ◌≡◌, Bool, true, false, not, ◌&&◌, ◌||◌, Option, none, some, List, String, ◌==◌,
  contains, if◌then◌else◌, Result, ok, err, Outcome, next, reply, Handler, respond, ◌>>=◌, ◌>>◌,
}
use schlass.Store.Tables.{Entry, Db, Client, User, AuthCode, SigningKey}
use schlass.Store.Sql.{find}
use schlass.AuthCode.{consume_once, lookup_family_by_code_hash}
use schlass.Valkey.Keys.{RefreshPayload}
use schlass.Valkey.Server.{Valkey}
use schlass.Refresh.{CreateError, create, revoke_family}
use schlass.Oidc.Scopes.{Scopes, has, to_string, intersect_scopes_against_client}
use schlass.Oidc.Pkce.{verify_pkce}
use schlass.Oidc.Claims.{second, unix, build_access_claims, build_id_claims}
use schlass.Token.Env.{
  Crypto, Config, Form, Call, begin_tx, consume_query, user_query, audit_insert, commit, ttl_query,
  key_query, family_query, side_begin, side_insert, side_commit, Env, TokenResponse, Reply,
  token_error, tokens, World,
}
use schlass.Token.Shared.{
  is_active, server_error, invalid_grant, user_by_id, active_key, token_response, with_entry,
  client_entry, Step, log_success, pass, require, need, begin, commit_and, rate_limit_check,
  authenticate_client,
}

abbrev pub auth_code_ttl : ℕ
auth_code_ttl = 60 * second

abbrev pub nonce_of : Option String → String
nonce_of none = ""
nonce_of (some n) = n

module _ (K : Valkey) (crypto : Crypto) (config : Config) (env : Env) (form : Form) where
  open crypto use {sha256hex, s256, unwrap_private_key, sign_access_token, sign_id_token}

  -- The audit entry in the transaction, whose failure is only logged, then the commit, then the reply.
  abbrev pub burn : Entry → Reply → {A : Type 0} → Step K A
  burn entry refusal w =
      commit_and K env (server_error "Could not commit.") refusal
        (record w { view = if env.fails audit_insert then w.view else with_entry entry w.view })

  -- The entry of a failure that is found after the code was consumed.
  abbrev pub code_event : String → AuthCode → String → Client → Entry
  code_event event row email client =
      client_entry event (some row.user_id) email client.id env.ip "failure" (some row.family_id)

  -- handleCodeReplay, after its transaction has been begun.
  abbrev pub replay_audit : String → World K → World K × Outcome Reply AuthCode
  replay_audit family w =
      let entry : Entry = record {
        event_type = "oidc.code.replay_detected";
        actor_id = none;
        actor_email = "";
        target_type = "authorization_code";
        target_id = "";
        client_id = none;
        ip_address = env.ip;
        outcome = "failure";
        family_id = some family;
      } in
      let view = if env.fails side_insert then w.db else with_entry entry w.db in
      (
        if env.fails side_begin || env.fails side_commit then w else record w { db = view },
        reply (invalid_grant "Code already used."),
      )

  -- handleCodeReplay: the transaction of the caller is rolled back, and the family is revoked.
  unfoldable pub handle_code_replay :
      String → Option String → World K → World K × Outcome Reply AuthCode
  handle_code_replay code_hash none w = (w, reply (invalid_grant "Code already used."))
  handle_code_replay code_hash (some family) w =
      replay_audit family (record w { kv = (revoke_family K sha256hex family w.kv).0 })

  -- The row that UPDATE … RETURNING gave, in the transaction's view.
  abbrev pub consumed_row :
      String → World K → List AuthCode × Option AuthCode → World K × Outcome Reply AuthCode
  consumed_row code_hash w (codes, some row) =
      (record w { view = record w.view { codes = codes } }, next row)
  consumed_row code_hash w (codes, none) =
      handle_code_replay code_hash
        (if env.fails family_query then none else lookup_family_by_code_hash code_hash w.db.codes) w

  -- codeStore.ConsumeOnce and its two errors.
  unfoldable pub consume_code : Step K AuthCode
  consume_code w =
      if env.fails consume_query
      then (w, reply (server_error "Could not consume authorization code."))
      else consumed_row (sha256hex form.code) w
          (consume_once env.sql_now (sha256hex form.code) w.view.codes)

  -- The form's fields, before any call.
  unfoldable pub check_code_form : Step K (Unit {0})
  check_code_form = do
    require K (not (form.client_id == "" || form.client_secret == ""))
        (token_error 401 "invalid_client" "Missing client credentials.")
    require K (not (form.code == "" || form.redirect_uri == "" || form.code_verifier == ""))
        (token_error 400 "invalid_request" "Missing code, redirect_uri, or code_verifier.")

  -- The code was issued to this client, for this redirect URI, and to the holder of the verifier.
  unfoldable pub check_binding : AuthCode → Client → Step K (Unit {0})
  check_binding row client =
      if not (row.client_id == client.id)
      then burn (code_event "oidc.code.client_mismatch" row "" client)
          (invalid_grant "Code / client mismatch.")
      else (if not (row.redirect_uri == form.redirect_uri)
          then burn (code_event "oidc.code.redirect_mismatch" row "" client)
              (invalid_grant "redirect_uri mismatch.")
          else (if not (verify_pkce s256 row.code_challenge form.code_verifier)
              then burn (code_event "oidc.code.pkce_mismatch" row "" client)
                  (invalid_grant "PKCE verifier mismatch.")
              else pass K tt))

  -- The user of the code, who must be active.
  abbrev pub active_user : AuthCode → Client → Option User → Step K User
  active_user row client none =
      burn (code_event "oidc.code.user_not_found" row "" client) (invalid_grant "User not found.")
  active_user row client (some u) =
      if is_active u
      then pass K u
      else burn
          (record (code_event "oidc.code.user_disabled" row u.email client) {
            actor_id = some u.id;
          })
          (invalid_grant "User not active.")

  unfoldable pub load_user : AuthCode → Client → Step K User
  load_user row client w =
      active_user row client (user_by_id (env.fails user_query) row.user_id w.view.users) w

  -- The grant type and the scopes as the client's row allows them at present.
  abbrev pub narrowed : AuthCode → Client → User → Option Scopes → Step K Scopes
  narrowed row client u none =
      burn
        (record (code_event "oidc.code.scope_removed" row u.email client) { actor_id = some u.id })
        (token_error 400 "invalid_scope" "requested scopes no longer allowed for this client")
  narrowed row client u (some scopes) = pass K scopes

  unfoldable pub revalidate : AuthCode → Client → User → Step K Scopes
  revalidate row client u =
      if contains client.allowed_grant_types "authorization_code"
      then narrowed row client u (intersect_scopes_against_client row.scopes client.allowed_scopes)
      else burn
          (record (code_event "oidc.code.grant_removed" row u.email client) {
            actor_id = some u.id;
          })
          (token_error 400 "unauthorized_client"
            "authorization_code grant no longer allowed for this client")

  abbrev pub refresh_payload : AuthCode → Client → User → Scopes → ℕ → RefreshPayload
  refresh_payload row client u scopes ttl_secs = record {
    user_id = u.id;
    client_id = client.id;
    scopes = scopes;
    family_id = row.family_id;
    created_at = unix env.now;
    expires = unix (env.now + ttl_secs * second);
    used = false;
  }

  abbrev pub minted : World K → K.State × Result CreateError String → World K × Outcome Reply String
  minted w (s, ok token) = (record w { kv = s }, next token)
  minted w (s, err e) = (record w { kv = s }, reply (server_error "Could not mint refresh token."))

  -- A refresh token, where the scope offline_access was granted.
  unfoldable pub mint_refresh : AuthCode → Client → User → Scopes → Step K String
  mint_refresh row client u scopes w =
      if has scopes "offline_access"
      then minted w (
          create K sha256hex (unix env.store_now) env.fresh
            (refresh_payload row client u scopes w.view.refresh_token_ttl_secs) w.kv)
      else (w, next "")

  abbrev pub code_exchanged : AuthCode → User → Client → Entry
  code_exchanged row u client =
      client_entry "oidc.code.exchanged" (some u.id) u.email client.id env.ip "success"
        (some row.family_id)

  -- auth_time is taken for the time at which the code was minted.
  unfoldable pub issue : AuthCode → Client → User → Scopes → Step K ⊥
  issue row client u scopes = do
    require K (not (env.fails ttl_query)) (server_error "Could not read token TTLs.")
    secs ← λ w. pass K w.view.access_token_ttl_secs w
    key ← λ w.
        need K (active_key (env.fails key_query) w.view.keys)
          (server_error "No active signing key.") w
    private_key ←
        need K (unwrap_private_key key.private_key_encrypted) (server_error "Signing failed.")
    access ←
        need K
          (sign_access_token
            (build_access_claims u client.id config.public_url env.jti_access scopes env.now
              (secs * second))
            key.id private_key)
          (server_error "Signing failed.")
    id ←
        need K
          (sign_id_token
            (build_id_claims u client.id config.public_url env.jti_id (nonce_of row.nonce) scopes
              (row.expires_at - auth_code_ttl) env.now (secs * second))
            key.id private_key)
          (server_error "Signing failed.")
    refresh ← mint_refresh row client u scopes
    log_success K env (code_exchanged row u client)
    commit_and K env (server_error "Commit failed.")
        (tokens (token_response access id refresh scopes secs))

  -- The redemption of the code, in a transaction.
  unfoldable pub redeem : Client → Step K ⊥
  redeem client = do
    begin K env (server_error "Could not begin transaction.")
    row ← consume_code
    check_binding row client
    u ← load_user row client
    scopes ← revalidate row client u
    issue row client u scopes

  unfoldable pub handle_authorization_code : Step K ⊥
  handle_authorization_code = do
    check_code_form
    rate_limit_check K config form.client_id
    client ← authenticate_client K crypto env form
    redeem client

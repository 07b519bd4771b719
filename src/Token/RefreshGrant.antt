-- ===== src/Token/RefreshGrant.antt =====
-- handleRefreshToken of internal/authserver/token.go: a refresh token for new tokens.
pub mod Conditions
pub mod Rotation
pub mod Theft
use schlass.Base.{
  ℕ, ◌+◌, ◌*◌, ◌≡◌, Bool, true, false, not, ◌&&◌, ◌||◌, Option, none, some, List, String, ◌==◌,
  contains, ltb, if◌then◌else◌, Result, ok, err, Outcome, next, reply, Handler, respond, ◌>>=◌,
  ◌>>◌,
}
use schlass.Store.Tables.{Entry, Db, Client, User, SigningKey}
use schlass.Valkey.Keys.{RefreshPayload}
use schlass.Valkey.Server.{Valkey}
use schlass.Refresh.{
  CreateError, ConsumeError, unknown_or_expired, reuse_detected, consume_failed, create, consume,
  mark_used, revoke_family,
}
use schlass.Session.RevokeBefore.{CutoffError, revoke_before_get}
use schlass.Oidc.Scopes.{Scopes, intersect_scopes_against_client}
use schlass.Oidc.Claims.{second, unix, build_access_claims, build_id_claims}
use schlass.Token.Env.{
  Crypto, Config, Form, Call, user_query, ttl_query, key_query, Env, TokenResponse, Reply,
  token_error, tokens, World,
}
use schlass.Token.Shared.{
  is_active, server_error, invalid_grant, user_by_id, active_key, token_response, client_entry,
  Step, log_success, pass, require, need, begin, commit_and, write_best_effort_audit,
  rate_limit_check, authenticate_client,
}

module _ (K : Valkey) (crypto : Crypto) (config : Config) (env : Env) (form : Form) where
  open crypto use {sha256hex, parse_uuid, unwrap_private_key, sign_access_token, sign_id_token}

  unfoldable pub check_refresh_form : Step K (Unit {0})
  check_refresh_form = do
    require K (not (form.client_id == "" || form.client_secret == ""))
        (token_error 401 "invalid_client" "Missing client credentials.")
    require K (not (form.refresh_token == ""))
        (token_error 400 "invalid_request" "Missing refresh_token.")

  -- The family is revoked, whose failure is only logged; the event is audited; the request is
  -- refused.
  unfoldable pub revoke_and_refuse : RefreshPayload → Entry → Reply → {A : Type 0} → Step K A
  revoke_and_refuse old entry refusal w = (
    write_best_effort_audit K env entry
        (record w { kv = (revoke_family K sha256hex old.family_id w.kv).0 }),
    reply refusal,
  )

  abbrev pub refresh_event : String → Option String → String → Client → RefreshPayload → Entry
  refresh_event event actor email client old =
      client_entry event actor email client.id env.ip "failure" (some old.family_id)

  -- What the handler does with the answer of Consume.
  abbrev pub presented : Client → Result ConsumeError RefreshPayload → Step K RefreshPayload
  presented client (ok old) = pass K old
  presented client (err unknown_or_expired) =
      respond (invalid_grant "Refresh token invalid or expired.")
  presented client (err (reuse_detected old)) =
      revoke_and_refuse old
        (refresh_event "oidc.refresh.reuse_detected" (parse_uuid old.user_id) "" client old)
        (invalid_grant "Refresh token already used (family revoked).")
  presented client (err consume_failed) = respond (server_error "Refresh lookup failed.")

  unfoldable pub consume_presented : Client → Step K RefreshPayload
  unfolding revoke_and_refuse
  consume_presented client w = presented client (consume K sha256hex form.refresh_token w.kv) w

  -- The token was issued to this client, which is still allowed the grant and some of the scopes.
  unfoldable pub revalidate : RefreshPayload → Client → Step K Scopes
  revalidate old client = do
    require K (old.client_id == client.id) (invalid_grant "Refresh / client mismatch.")
    require K (contains client.allowed_grant_types "refresh_token") (
        token_error 400 "unauthorized_client"
          "refresh_token grant no longer allowed for this client")
    need K (intersect_scopes_against_client old.scopes client.allowed_scopes)
        (token_error 400 "invalid_scope" "requested scopes no longer allowed for this client")

  -- The user of the token, who must be active.
  abbrev pub active_user : RefreshPayload → Client → Option User → Step K User
  active_user old client none = respond (invalid_grant "User not found.")
  active_user old client (some u) =
      if is_active u
      then pass K u
      else revoke_and_refuse old
          (refresh_event "oidc.refresh.user_disabled" (some u.id) u.email client old)
          (invalid_grant "User not active.")

  unfoldable pub load_user : RefreshPayload → Client → Step K User
  unfolding revoke_and_refuse
  load_user old client = do
    uid ← need K (parse_uuid old.user_id) (invalid_grant "Refresh payload malformed.")
    λ w. active_user old client (user_by_id (env.fails user_query) uid w.db.users) w

  -- A cutoff that cannot be read lets the token pass.
  abbrev pub within_cutoff :
      RefreshPayload → Client → User → Result CutoffError ℕ → Step K (Unit {0})
  within_cutoff old client u (err e) = pass K tt
  within_cutoff old client u (ok cutoff) =
      if ltb old.created_at cutoff
      then revoke_and_refuse old
          (refresh_event "user.revoke_before_enforced" (some u.id) u.email client old)
          (invalid_grant "Token revoked by user mutation.")
      else pass K tt

  unfoldable pub check_cutoff : RefreshPayload → Client → User → Step K (Unit {0})
  unfolding revoke_and_refuse
  check_cutoff old client u w = within_cutoff old client u (revoke_before_get K u.id w.kv) w

  -- The payload of the token that takes the place of the old one.
  abbrev pub rotated_payload : RefreshPayload → Client → User → Scopes → RefreshPayload
  rotated_payload old client u scopes = record {
    user_id = u.id;
    client_id = client.id;
    scopes = scopes;
    family_id = old.family_id;
    created_at = unix env.now;
    expires = old.expires;
    used = false;
  }

  abbrev pub rotated :
      World K → K.State × Result CreateError String → World K × Outcome Reply String
  rotated w (s, ok token) =
      -- MarkUsed of the old token, whose failure is only logged.
      (record w { kv = (mark_used K sha256hex form.refresh_token s).0 }, next token)
  rotated w (s, err e) = (record w { kv = s }, reply (invalid_grant "Refresh token expired."))

  -- The new token is created before the old one is marked used.
  unfoldable pub rotate : RefreshPayload → Client → User → Scopes → Step K String
  rotate old client u scopes w =
      rotated w (
        create K sha256hex (unix env.store_now) env.fresh (rotated_payload old client u scopes)
          w.kv)

  abbrev pub token_refreshed : RefreshPayload → User → Client → Entry
  token_refreshed old u client =
      client_entry "oidc.token.refreshed" (some u.id) u.email client.id env.ip "success"
        (some old.family_id)

  -- auth_time is taken for the time at which the old token was created.
  unfoldable pub issue : RefreshPayload → Client → User → Scopes → Step K ⊥
  issue old client u scopes = do
    require K (not (env.fails ttl_query)) (server_error "Could not read token TTLs.")
    secs ← λ w. pass K w.db.access_token_ttl_secs w
    key ← λ w.
        need K (active_key (env.fails key_query) w.db.keys) (server_error "No active signing key.")
          w
    private_key ←
        need K (unwrap_private_key key.private_key_encrypted) (server_error "Signing failed.")
    access ←
        need K
          (sign_access_token
            (build_access_claims u client.id config.public_url env.jti_access scopes env.now
              (secs * second))
            key.id private_key)
          (server_error "Signing failed.")
    id ←
        need K
          (sign_id_token
            (build_id_claims u client.id config.public_url env.jti_id "" scopes
              (old.created_at * second) env.now (secs * second))
            key.id private_key)
          (server_error "Signing failed.")
    refresh ← rotate old client u scopes
    begin K env (server_error "DB begin failed.")
    log_success K env (token_refreshed old u client)
    commit_and K env (server_error "Commit failed.")
        (tokens (token_response access id refresh scopes secs))

  unfoldable pub handle_refresh_token : Step K ⊥
  handle_refresh_token = do
    check_refresh_form
    rate_limit_check K config form.client_id
    client ← authenticate_client K crypto env form
    old ← consume_presented client
    scopes ← revalidate old client
    u ← load_user old client
    check_cutoff old client u
    issue old client u scopes

-- ===== src/Tests/RefreshGrant.antt =====
-- The token endpoint at a refresh token that is rotated, and at one that is presented again.
use schlass.Base.{
  ℕ, ◌≤◌, ◌≡◌, refl, sym, ap, true, false, [], ◌∷◌, String, ◌⊎◌, Result, ok, err, reply, arith,
  ◌==◌, some,
}
use schlass.Store.Sql.{find}
use schlass.Clients.Store.{is_active_client, get_by_id, verify_secret}
use schlass.Oidc.Scopes.{to_string, keep_allowed, refuse_empty, intersect_scopes_against_client}
use schlass.Valkey.Keys.{RefreshPayload}
use schlass.Valkey.Memory.{Cells, in_memory}
use schlass.Refresh.{
  CreateError, reuse_detected, consume_failed, create, consume, mark_used, revoke_family,
}
use schlass.Refresh.Steps.{Reach-IsLinked}
use schlass.Session.RevokeBefore.{revoke_before_get}
use schlass.Token.Env.{token_error, Form, TokenResponse, tokens, World}
use schlass.Token.Shared.{rate_limit_check, authenticate_client}
use schlass.Token.RefreshGrant.{
  check_refresh_form, consume_presented, revalidate, load_user, check_cutoff, rotate, issue,
  handle_refresh_token,
}
use schlass.Token.RefreshGrant.Conditions
use schlass.Token.RefreshGrant.Conditions.{IsRotated}
use schlass.Token.RefreshGrant.Rotation.{handle_refresh_token-IsRotated, rotation_effect}
use schlass.Token.RefreshGrant.Theft.{Ended, reuse_ends_family}
use schlass.Tests.Fixtures.{alice, app, crypto, config, request, form, start}
use schlass.Tests.RefreshStore.{same_text, payload, one_token, one_used, reached, new_is_other}

abbrev refresh_form : Form
refresh_form = form "refresh_token" "" "r1"

abbrev refresh_start : World in_memory
refresh_start = record start { kv = one_token }

abbrev refreshed : World in_memory
refreshed =
    (handle_refresh_token in_memory crypto config (request "r2") refresh_form refresh_start).0

abbrev response : TokenResponse
response = record {
  access_token = "at";
  token_type = "Bearer";
  expires_in = 900;
  refresh_token = "r2";
  id_token = "idt";
  scope = "openid offline_access";
}

token_refreshed :
    handle_refresh_token in_memory crypto config (request "r2") refresh_form refresh_start
    ≡ (refreshed, reply (tokens response))
unfolding handle_refresh_token check_refresh_form consume_presented revalidate load_user
    check_cutoff rotate issue rate_limit_check authenticate_client get_by_id verify_secret
    is_active_client find intersect_scopes_against_client keep_allowed refuse_empty to_string create
    consume mark_used revoke_before_get
token_refreshed = refl

handle_refresh_token-IsRotated_example :
    IsRotated in_memory crypto config (request "r2") refresh_form refresh_start refreshed response
    × Conditions.IsKept in_memory crypto config (request "r2") refresh_form refresh_start refreshed
handle_refresh_token-IsRotated_example =
    handle_refresh_token-IsRotated in_memory crypto config (request "r2") refresh_form refresh_start
      refreshed response token_refreshed

abbrev reused : World in_memory
reused = record start { kv = one_used }

found_used :
    consume in_memory crypto.sha256hex refresh_form.refresh_token reused.kv
    ≡ err (reuse_detected (record (payload "f1") { used = true }))
unfolding create mark_used consume
found_used = refl

revoked_f1 : (revoke_family in_memory crypto.sha256hex "f1" reused.kv).1 ≡ ok tt
unfolding revoke_family
revoked_f1 = refl

reuse_ends_family_example :
    ((consume_presented in_memory crypto config (request "r2") refresh_form app reused).1
      ≡ reply (token_error 400 "invalid_grant" "Refresh token already used (family revoked)."))
    × Ended in_memory crypto config
        (request "r2")
        refresh_form
        "f1"
        (consume_presented in_memory crypto config (request "r2") refresh_form app reused).0.kv
        (revoke_family in_memory crypto.sha256hex "f1" reused.kv).1
reuse_ends_family_example =
    reuse_ends_family in_memory crypto config (request "r2") refresh_form app reused
      (record (payload "f1") { used = true }) found_used
      (Reach-IsLinked in_memory same_text (λ h. refl) reached)

client_authentic :
    verify_secret crypto.parse_uuid crypto.verify_password false 120000000000 "app" "s3cret"
      (app ∷ [])
    ≡ ok true
unfolding verify_secret get_by_id is_active_client find
client_authentic = refl

client_known : get_by_id crypto.parse_uuid false "app" (app ∷ []) ≡ some app
unfolding get_by_id is_active_client find
client_known = refl

counted_consumed :
    consume in_memory crypto.sha256hex "r1"
      (Conditions.counted in_memory crypto config (request "r2") refresh_form refresh_start)
    ≡ ok (payload "f1")
unfolding create consume rate_limit_check
counted_consumed = refl

scopes_narrowed :
    intersect_scopes_against_client (payload "f1").scopes app.allowed_scopes
    ≡ some (payload "f1").scopes
unfolding intersect_scopes_against_client keep_allowed refuse_empty
scopes_narrowed = refl

user_found : find (λ u. u.id == "u1") (alice ∷ []) ≡ some alice
unfolding find
user_found = refl

no_cutoff :
    (c : ℕ)
    → revoke_before_get in_memory "u1"
        (Conditions.counted in_memory crypto config (request "r2") refresh_form refresh_start)
      ≡ ok c
    → c ≤ 100
unfolding create rate_limit_check revoke_before_get
no_cutoff c e = cc

abbrev creation : Cells × Result CreateError String
creation =
    Conditions.created in_memory crypto config (request "r2") refresh_form refresh_start
      (payload "f1") app alice (payload "f1").scopes

new_created : creation.1 ≡ ok "r2"
unfolding create rate_limit_check
new_created = refl

old_marked : mark_used in_memory crypto.sha256hex "r1" creation.0 ≡ (refreshed.kv, ok tt)
unfolding handle_refresh_token check_refresh_form consume_presented revalidate load_user
    check_cutoff rotate issue rate_limit_check authenticate_client get_by_id verify_secret
    is_active_client find intersect_scopes_against_client keep_allowed refuse_empty to_string create
    consume mark_used revoke_before_get
old_marked = refl

scope_text : "openid offline_access" ≡ to_string (payload "f1").scopes
unfolding to_string
scope_text = refl

abbrev why :
    IsRotated in_memory crypto config (request "r2") refresh_form refresh_start refreshed response
why = record {
  client = app;
  old = payload "f1";
  user = alice;
  uid = "u1";
  scopes = (payload "f1").scopes;
  authentic = client_authentic;
  known = client_known;
  consumed = counted_consumed;
  issued_to = refl;
  granted = refl;
  narrowed = scopes_narrowed;
  named = refl;
  found = user_found;
  active = refl;
  not_revoked = no_cutoff;
  renewed = new_created;
  marked = sym (ap (λ p. p.0) old_marked);
  scope = scope_text;
}

rotation_effect_example :
    ((consume in_memory crypto.sha256hex "r2" refreshed.kv ≡ err consume_failed)
      ⊎ ((p : RefreshPayload) × (consume in_memory crypto.sha256hex "r2" refreshed.kv ≡ ok p)
          × (p.client_id ≡ "app")
          × (p.family_id ≡ "f1")
          × (p.expires ≡ (payload "f1").expires)))
    × ((consume in_memory crypto.sha256hex "r1" refreshed.kv
          ≡ err (reuse_detected (record (payload "f1") { used = true })))
        ⊎ (consume in_memory crypto.sha256hex "r1" refreshed.kv ≡ err consume_failed))
rotation_effect_example =
    rotation_effect in_memory crypto config (request "r2") refresh_form refresh_start refreshed
      response why new_is_other (ground arith) old_marked

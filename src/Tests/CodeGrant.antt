-- ===== src/Tests/CodeGrant.antt =====
-- The token endpoint at a code that is exchanged, and at the same code a second time.
use schlass.Base.{ℕ, ◌*◌, List, some, none, ◌≡◌, refl, false, [], ◌∷◌, reply, arith, ◌⊎◌}
use schlass.Store.Sql.{find, update_where}
use schlass.AuthCode.{insert, is_consumable, mark_used, consume_once, lookup_family_by_code_hash}
use schlass.AuthCode.Refinement.{
  Operation, issue as issue_row, redeem as redeem_at, answers, promised, nothing_yet, IsOrdered,
  answers-promised,
}
use schlass.Clients.Store.{is_active_client, get_by_id, verify_secret}
use schlass.Oidc.Scopes.{to_string, keep_allowed, refuse_empty, intersect_scopes_against_client}
use schlass.Oidc.Pkce.{verify_pkce}
use schlass.Refresh.{create, revoke_family}
use schlass.Valkey.Memory.{in_memory}
use schlass.Token.Env.{Form, TokenResponse, token_error, tokens, World}
use schlass.Token.Shared.{rate_limit_check, authenticate_client}
use schlass.Token.CodeGrant.{
  handle_code_replay, consume_code, check_code_form, check_binding, load_user, revalidate,
  mint_refresh, issue, redeem, handle_authorization_code,
}
use schlass.Token.CodeGrant.Conditions.{IsRedeemed}
use schlass.Token.CodeGrant.Guarantee.{handle_authorization_code-IsRedeemed, refusal_effect}
use schlass.Token.CodeGrant.Replay.{NeverIssues, exchanged_at_most_once}
use schlass.Token.Handle.{handle, handle-tokens}
use schlass.Token.RefreshGrant.Conditions.{IsRotated}
use schlass.Tests.Fixtures.{crypto, config, request, form, start, code}
use schlass.Oidc.Claims.{second}

abbrev bad_request : ℕ
bad_request = 400

abbrev code_form : Form
code_form = form "authorization_code" "abc" ""

abbrev exchanged : World in_memory
exchanged = (handle_authorization_code in_memory crypto config (request "r1") code_form start).0

abbrev response : TokenResponse
response = record {
  access_token = "at";
  token_type = "Bearer";
  expires_in = 900;
  refresh_token = "r1";
  id_token = "idt";
  scope = "openid offline_access";
}

code_exchanged :
    handle_authorization_code in_memory crypto config (request "r1") code_form start
    ≡ (exchanged, reply (tokens response))
unfolding handle_authorization_code redeem issue mint_refresh revalidate load_user check_binding
    consume_code check_code_form rate_limit_check authenticate_client get_by_id verify_secret
    is_active_client find update_where consume_once is_consumable mark_used verify_pkce
    intersect_scopes_against_client keep_allowed refuse_empty to_string create
code_exchanged = refl

abbrev replayed : World in_memory
replayed = (handle_authorization_code in_memory crypto config (request "r2") code_form exchanged).0

code_replayed :
    handle_authorization_code in_memory crypto config (request "r2") code_form exchanged
    ≡ (replayed, reply (token_error 400 "invalid_grant" "Code already used."))
unfolding handle_authorization_code redeem issue mint_refresh revalidate load_user check_binding
    consume_code check_code_form rate_limit_check authenticate_client get_by_id verify_secret
    is_active_client find update_where consume_once is_consumable mark_used verify_pkce
    intersect_scopes_against_client keep_allowed refuse_empty to_string create handle_code_replay
    lookup_family_by_code_hash revoke_family
code_replayed = refl

endpoint_exchanged :
    handle in_memory crypto config (request "r1") code_form false start
    ≡ (exchanged, reply (tokens response))
unfolding handle
endpoint_exchanged = code_exchanged

handle_authorization_code-IsRedeemed_example :
    IsRedeemed in_memory crypto config (request "r1") code_form start exchanged response
handle_authorization_code-IsRedeemed_example =
    handle_authorization_code-IsRedeemed in_memory crypto config (request "r1") code_form start
      exchanged response code_exchanged

exchanged_at_most_once_example :
    NeverIssues in_memory crypto config "abc"
      ((request "r2", code_form) ∷ (request "r3", code_form) ∷ [])
      exchanged
exchanged_at_most_once_example =
    exchanged_at_most_once in_memory crypto config (request "r1") code_form start exchanged response
      ((request "r2", code_form) ∷ (request "r3", code_form) ∷ []) code_exchanged
      (ground arith, (ground arith, tt))

refusal_effect_example :
    ((replayed.db.codes ≡ exchanged.db.codes)
      ⊎ (replayed.db.codes ≡ (consume_once (request "r2").sql_now "abc" exchanged.db.codes).0))
    × (bad_request ≡ 500 → replayed.db ≡ exchanged.db)
refusal_effect_example =
    refusal_effect in_memory crypto config (request "r2") code_form exchanged replayed bad_request
      "invalid_grant" "Code already used." code_replayed

handle-tokens_example :
    (false ≡ false)
    × (((code_form.grant_type ≡ "authorization_code")
          × IsRedeemed in_memory crypto config (request "r1") code_form start exchanged response)
        ⊎ ((code_form.grant_type ≡ "refresh_token")
            × IsRotated in_memory crypto config (request "r1") code_form start exchanged response))
handle-tokens_example =
    handle-tokens in_memory crypto config (request "r1") code_form false start exchanged response
      endpoint_exchanged

-- The code is issued, and a second time in vain, redeemed, then presented again.
abbrev presented_twice : List Operation
presented_twice =
    issue_row code
    ∷ issue_row code
    ∷ redeem_at (110 * second) "abc"
    ∷ redeem_at (120 * second) "abc"
    ∷ []

in_order : IsOrdered 0 presented_twice
unfolding IsOrdered
in_order = (ground arith, (ground arith, tt))

answered_once : answers presented_twice [] ≡ some code ∷ none ∷ some code ∷ none ∷ []
unfolding answers insert consume_once is_consumable find update_where mark_used
answered_once = refl

answers-promised_example : answers presented_twice [] ≡ promised presented_twice nothing_yet
answers-promised_example = answers-promised presented_twice in_order

-- ===== src/Tests/Endpoints.antt =====
-- The authorization endpoint, the bearer middleware and /userinfo on concrete requests.
use schlass.Base.{
  ◌*◌, ◌≡◌, refl, true, false, none, some, [], ◌∷◌, String, err, reply, next, arith, fields,
  is_space, has_char, trim_space, All, IsWord, IsWord-by_test, no_space,
}
use schlass.Store.Tables.{Client, AuthCode, User}
use schlass.Store.Sql.{find, select_where}
use schlass.AuthCode.{insert, consume_once}
use schlass.Clients.Store.{is_active_client, get_by_id, validate_redirect_uri}
use schlass.SigningKeys.{insert_ordered, order, list_publishable}
use schlass.Session.RevokeBefore.{
  cutoff_failed, revoke_before_set_now, revoke_before_get, revoke_before_client_get,
}
use schlass.Oidc.Claims.{second, AccessTokenClaims, build_access_claims}
use schlass.Oidc.Jwt.{parse_and_verify_access_token}
use schlass.Valkey.Memory.{Cells, in_memory, without_get, empty_cells}
use schlass.Authorize.Endpoint
use schlass.Authorize.Endpoint.{Query, Reply, redirect_error, redirect_code, to_login, World}
use schlass.Authorize.MaxAge.{max_age_of}
use schlass.Authorize.{first_not_allowed, load_client, check_query, need_reauth, store_code, handle}
use schlass.Authorize.Conditions.{HasRegistered, IsAuthorized}
use schlass.Authorize.Guarantee.{handle-IsAuthorized, error_only_to_registered}
use schlass.Authorize.Redemption.{consume_once-authorize}
use schlass.Bearer.{
  BearerEnv, equal_fold, split_space, extract_bearer_token, lookup_key, check_claims, load_subject,
  check_cutoffs, bearer_auth,
}
use schlass.Bearer.Acceptance.{IsAccepted, bearer_auth-IsAccepted, revoked_not_accepted}
use schlass.Bearer.UserInfo.{info, released, handle_userinfo, handle_userinfo-build_access_claims}
use schlass.Tests.Fixtures.{alice, tables}

abbrev query : (prompt : String) → Query
query prompt = record {
  client_id = "app";
  redirect_uri = "https://app.example/cb";
  response_type = "code";
  state = "xyz";
  code_challenge = "verifier";
  code_challenge_method = "S256";
  scope = "openid offline_access";
  prompt = prompt;
  max_age = "";
  nonce = "";
}

abbrev visit : Endpoint.Env
visit = record {
  parse_uuid = λ s. some s;
  sha256hex = λ s. s;
  query_escape = λ s. s;
  current_user = some alice;
  cookie = some "t1";
  request_uri = "/authorize?client_id=app";
  session_ttl = 3600;
  now = 120 * second;
  fresh_code = some "c1";
  fresh_family = "f7";
  error_ref = some "err_1";
  ip = "10.0.0.1";
  fails = λ c. false;
}

abbrev stranger : Endpoint.Env
stranger = record visit { current_user = none }

abbrev before : World in_memory
before = record { db = tables; kv = empty_cells }

abbrev authorized : World in_memory
authorized = (handle in_memory visit (query "") before).0

code_sent :
    handle in_memory visit (query "") before
    ≡ (authorized, reply (redirect_code "https://app.example/cb" "?" "c1" "xyz"))
unfolding handle load_client check_query need_reauth store_code first_not_allowed get_by_id insert
    is_active_client find validate_redirect_uri fields is_space has_char max_age_of
code_sent = refl

abbrev refused_login : World in_memory
refused_login = (handle in_memory stranger (query "none") before).0

login_required : handle in_memory stranger (query "none") before ≡ (
  refused_login,
  reply (
      redirect_error "https://app.example/cb" "?" "login_required"
        "End-User authentication is required." "xyz"),
)
unfolding handle load_client check_query need_reauth store_code first_not_allowed get_by_id
    is_active_client find validate_redirect_uri fields is_space has_char max_age_of
login_required = refl

abbrev cb : String
cb = "https://app.example/cb"

handle-IsAuthorized_example :
    (c : Client) × HasRegistered in_memory visit (query "") before c cb
    × ((cb ≡ (query "").redirect_uri)
        × ((query "").state ≡ (query "").state)
        × IsAuthorized in_memory visit (query "") before c authorized "c1")
handle-IsAuthorized_example =
    handle-IsAuthorized in_memory visit (query "") before authorized cb "?" "c1" "xyz" code_sent

error_only_to_registered_example :
    (c : Client) × HasRegistered in_memory stranger (query "none") before c cb
    × ((refused_login.db.codes ≡ tables.codes) × (cb ≡ (query "none").redirect_uri))
error_only_to_registered_example =
    error_only_to_registered in_memory stranger (query "none") before refused_login cb "?"
      "login_required" "End-User authentication is required." "xyz" login_required

consume_once-authorize_example :
    (row : AuthCode) × ((consume_once (130 * second) "c1" authorized.db.codes).1 ≡ some row)
    × (row.redirect_uri ≡ cb)
    × ((u : User) × (visit.current_user ≡ some u) × (row.user_id ≡ u.id))
    × (row.code_challenge ≡ (query "").code_challenge)
    × (visit.parse_uuid "app" ≡ some row.client_id)
consume_once-authorize_example =
    consume_once-authorize in_memory visit (query "") before authorized cb "?" "c1" "xyz"
      (130 * second) code_sent (omega arith)

abbrev claims : AccessTokenClaims
claims = record {
  issuer = "https://id.example";
  subject = "u1";
  audience = "app";
  issued_at = 100;
  not_before = 100;
  expires = 1000;
  jti = "j1";
  scope = "openid email";
}

abbrev server : BearerEnv
server = record {
  issuer = "https://id.example";
  now = 120 * second;
  parse_jwt = λ raw. some (record { alg = "RS256"; typ = "at+jwt"; kid = "k1"; claims = claims });
  verify_rs256 = λ raw pem. true;
  parse_uuid = λ s. some s;
  keys_fail = false;
  user_fails = false;
}

bearer_accepted :
    bearer_auth in_memory server tables empty_cells "Bearer tok" tt ≡ (tt, next (alice, claims))
unfolding bearer_auth extract_bearer_token split_space equal_fold trim_space
    parse_and_verify_access_token lookup_key list_publishable order insert_ordered select_where find
    check_claims load_subject check_cutoffs revoke_before_get revoke_before_client_get
bearer_accepted = refl

bearer_auth-IsAccepted_example :
    IsAccepted in_memory server tables empty_cells "Bearer tok" alice claims
bearer_auth-IsAccepted_example =
    bearer_auth-IsAccepted in_memory server tables empty_cells "Bearer tok" alice claims
      bearer_accepted

abbrev revoked_cells : Cells
revoked_cells = (revoke_before_set_now without_get "u1" (110 * second) empty_cells).0

cutoff_set : (revoke_before_set_now without_get "u1" (110 * second) empty_cells).1 ≡ true
unfolding revoke_before_set_now
cutoff_set = refl

accepted_unread :
    bearer_auth without_get server tables revoked_cells "Bearer tok" tt ≡ (tt, next (alice, claims))
unfolding bearer_auth extract_bearer_token split_space equal_fold trim_space
    parse_and_verify_access_token lookup_key list_publishable order insert_ordered select_where find
    check_claims load_subject check_cutoffs revoke_before_get revoke_before_client_get
    revoke_before_set_now
accepted_unread = refl

revoked_not_accepted_example : revoke_before_get without_get "u1" revoked_cells ≡ err cutoff_failed
revoked_not_accepted_example =
    revoked_not_accepted without_get server tables empty_cells (110 * second) "Bearer tok" alice
      claims cutoff_set (omega arith) accepted_unread

two_words : All IsWord ("openid" ∷ "email" ∷ [])
unfolding no_space
two_words = (IsWord-by_test "openid" refl refl, (IsWord-by_test "email" refl refl, tt))

handle_userinfo-build_access_claims_example :
    (handle_userinfo false "10.0.0.1"
      (some alice)
      (some (
        build_access_claims alice "app" "https://id.example" "j1"
          ("openid" ∷ "email" ∷ [])
          (120 * second)
          (900 * second)))
      tables).1
    ≡ info (released alice ("openid" ∷ "email" ∷ []))
handle_userinfo-build_access_claims_example =
    handle_userinfo-build_access_claims false "10.0.0.1" alice alice "app" "https://id.example" "j1"
      ("openid" ∷ "email" ∷ []) (120 * second) (900 * second) tables two_words

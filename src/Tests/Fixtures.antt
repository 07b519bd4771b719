-- ===== src/Tests/Fixtures.antt =====
-- A user, a client, a code, a signing key and the servers of the examples.
use schlass.Base.{◌*◌, false, none, some, [], ◌∷◌, String, ◌==◌, ok}
use schlass.Store.Tables.{User, Client, AuthCode, SigningKey, Db}
use schlass.Valkey.Memory.{in_memory, empty_cells}
use schlass.Oidc.Claims.{second}
use schlass.Token.Env
use schlass.Token.Env.{Crypto, Config, Form}

abbrev pub alice : User
alice = record {
  id = "u1";
  email = "alice@example.com";
  password_hash = "hash";
  role = "user";
  status = "active";
  force_password_change = false;
  totp_secret_encrypted = none;
  totp_enrolled_at = none;
  failed_login_attempts = 0;
  locked_until = none;
  last_used_totp_counter = 0;
  last_login_at = none;
  created_at = 0;
  updated_at = 7 * second;
}

abbrev pub app : Client
app = record {
  id = "app";
  name = "App";
  client_type = "confidential";
  secret_hash = some "s3cret";
  secret_hash_previous = none;
  secret_previous_expires_at = none;
  redirect_uris = "https://app.example/cb" ∷ [];
  allowed_grant_types = "authorization_code" ∷ "refresh_token" ∷ [];
  allowed_scopes = "openid" ∷ "offline_access" ∷ [];
  token_endpoint_auth_method = "client_secret_post";
  status = "active";
  disabled_at = none;
  created_by_user_id = none;
  created_at = 0;
  updated_at = 0;
}

abbrev pub code : AuthCode
code = record {
  code_hash = "abc";
  client_id = "app";
  user_id = "u1";
  redirect_uri = "https://app.example/cb";
  scopes = "openid" ∷ "offline_access" ∷ [];
  nonce = none;
  code_challenge = "verifier";
  code_challenge_method = "S256";
  expires_at = 160 * second;
  family_id = "f1";
  used = false;
}

abbrev pub key : SigningKey
key = record {
  id = "k1";
  algorithm = "RS256";
  public_key_pem = "pem";
  private_key_encrypted = "wrapped";
  status = "active";
  created_at = 0;
  rotated_at = none;
}

abbrev pub tables : Db
tables = record {
  users = alice ∷ [];
  clients = app ∷ [];
  codes = code ∷ [];
  keys = key ∷ [];
  audit_logs = [];
  access_token_ttl_secs = 900;
  refresh_token_ttl_secs = 3600;
}

-- Digests that are the identity, and a password check that compares.
abbrev pub crypto : Crypto
crypto = record {
  sha256hex = λ s. s;
  s256 = λ s. s;
  parse_uuid = λ s. some s;
  verify_password = λ secret hash. ok (secret == hash);
  unwrap_private_key = λ k. some k;
  sign_access_token = λ c kid k. some "at";
  sign_id_token = λ c kid k. some "idt";
}

abbrev pub config : Config
config = record { public_url = "https://id.example"; token_rate_limit = 30 }

-- A request at 120 seconds in which every call succeeds.
abbrev pub request : (fresh : String) → Env.Env
request fresh = record {
  now = 120 * second;
  store_now = 120 * second;
  sql_now = 120 * second;
  jti_access = "j1";
  jti_id = "j2";
  fresh = some fresh;
  ip = "10.0.0.1";
  fails = λ c. false;
}

abbrev pub form : (grant_type code refresh_token : String) → Form
form grant_type code refresh_token = record {
  grant_type = grant_type;
  client_id = "app";
  client_secret = "s3cret";
  code = code;
  redirect_uri = "https://app.example/cb";
  code_verifier = "verifier";
  refresh_token = refresh_token;
}

abbrev pub start : Env.World in_memory
start = record { db = tables; view = tables; kv = empty_cells }

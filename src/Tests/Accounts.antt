-- ===== src/Tests/Accounts.antt =====
-- The handlers of internal/auth on concrete requests: what they start from.
use schlass.Base.{◌*◌, Bool, false, true, none, some, [], ◌∷◌, ◌==◌, ok}
use schlass.Store.Tables.{User}
use schlass.Valkey.Memory.{in_memory, empty_cells}
use schlass.Oidc.Claims.{second}
use schlass.Auth.ResetTokens.{ResetToken}
use schlass.Auth.Env.{Settings, Tables, Lib, Config, Env, World}
use schlass.Tests.Fixtures
use schlass.Tests.Fixtures.{alice}

abbrev pub settings : Settings
settings = record {
  lockout_threshold = 5;
  lockout_duration_secs = 900;
  mfa_required = false;
  password_policy = record { min_length = 8; require_upper = false; require_digit = false };
  instance_name = "Schlass";
}

-- Text functions and digests that are the identity, checks that compare; a code is right at step 4.
abbrev pub lib : Lib
lib = record {
  to_lower = λ s. s;
  parse_url = λ s. none;
  parse_address = λ s. true;
  is_upper = λ c. false;
  is_digit = λ c. false;
  parse_uuid = λ s. some s;
  verify_password = λ secret hash. ok (secret == hash);
  hash_password = λ s. some s;
  is_pwned = λ s. some false;
  hmac_token = λ s. s;
  encrypt = λ secret aad. some secret;
  decrypt = λ o aad. o;
  totp_valid = λ code secret step. some (code == secret);
  build_provision_uri = λ issuer email secret. some secret;
  marshal = λ xs. none;
  unmarshal = λ s. none;
}

abbrev pub config : Config
config = record { public_url = "https://id.example"; session_ttl = 3600 }

-- A request at 120 seconds in which every call succeeds.
abbrev pub request : Env
request = record {
  now = 120 * second;
  session_now = 120 * second;
  sql_now = 120 * second;
  origin = "https://id.example";
  ip = "10.0.0.1";
  user_agent = "browser";
  session_cookie = none;
  enroll_cookie = none;
  challenge_cookie = none;
  current_user = none;
  fresh = some "s1";
  fresh_token = some "t1";
  fresh_secret = some "secret";
  fresh_codes = none;
  ids = λ n. "id";
  fails = λ c. false;
}

-- The user, whose second factor has the secret 123456.
abbrev pub enrolled_alice : User
enrolled_alice = record alice { totp_secret_encrypted = some "123456"; totp_enrolled_at = some 0 }

abbrev pub reset_token : ResetToken
reset_token = record {
  id = "p1";
  user_id = "u1";
  token_hash = "link";
  expires_at = 1000 * second;
  used_at = none;
  created_at = 0;
}

abbrev pub tables : (mfa_required : Bool) → User → Tables
tables mfa_required u = record {
  core = record Fixtures.tables { users = u ∷ [] };
  recovery_codes = [];
  reset_tokens = reset_token ∷ [];
  settings = record settings { mfa_required = mfa_required };
}

abbrev pub start : (mfa_required : Bool) → User → World in_memory
start mfa_required u = record {
  db = tables mfa_required u;
  view = tables mfa_required u;
  kv = empty_cells;
}

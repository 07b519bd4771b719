-- ===== src/Token/Env.antt =====
-- What a request to the token endpoint starts from: the handler's fields, the form, the clock, the
-- random values and the calls that fail.
use schlass.Base.{ℕ, Bool, Option, String, Result}
use schlass.Store.Tables.{Db}
use schlass.Valkey.Server.{Valkey}
use schlass.Oidc.Claims.{AccessTokenClaims, IdTokenClaims}

-- The digests, uuid.Parse, crypto.VerifyPassword, oidc.UnwrapPrivateKey and the two signers, which
-- take the claims, the key's id and the private key; `none` is an error.
pub record Crypto : Type 0 where
  pub sha256hex : String → String
  pub s256 : String → String
  pub parse_uuid : String → Option String
  pub verify_password : String → String → Result (Unit {0}) Bool
  pub unwrap_private_key : String → Option String
  pub sign_access_token : AccessTokenClaims → String → String → Option String
  pub sign_id_token : IdTokenClaims → String → String → Option String

-- The fields of TokenHandler that are no stores.
pub record Config : Type 0 where
  pub public_url : String
  pub token_rate_limit : ℕ

-- The form values; a missing one is "".
pub record Form : Type 0 where
  pub grant_type : String
  pub client_id : String
  pub client_secret : String
  pub code : String
  pub redirect_uri : String
  pub code_verifier : String
  pub refresh_token : String

-- The calls of PostgreSQL that may fail, in one request.
pub data Call : Type 0 where
  secret_query client_query begin_tx consume_query user_query audit_insert commit : Call
  ttl_query key_query family_query side_begin side_insert side_commit : Call

-- Times are nanoseconds: time.Now() of the handler, of the refresh store, and now() of the
-- transaction. `fresh` is what rand.Read gives for a token.
pub record Env : Type 0 where
  pub now : ℕ
  pub store_now : ℕ
  pub sql_now : ℕ
  pub jti_access : String
  pub jti_id : String
  pub fresh : Option String
  pub ip : String
  pub fails : Call → Bool

pub record TokenResponse : Type 0 where
  pub access_token : String
  pub token_type : String
  pub expires_in : ℕ
  pub refresh_token : String
  pub id_token : String
  pub scope : String

-- A reply of the endpoint: an error of RFC 6749 section 5.2, or tokens.
pub data Reply : Type 0 where
  token_error : (status : ℕ) (error description : String) → Reply
  tokens : TokenResponse → Reply

-- The database as committed, the open transaction's view of it, and Valkey.
pub record World (K : Valkey) : Type 0 where
  pub db : Db
  pub view : Db
  pub kv : K.State

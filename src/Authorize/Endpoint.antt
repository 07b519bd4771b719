-- ===== src/Authorize/Endpoint.antt =====
-- What a request to the authorization endpoint starts from, and its replies.
use schlass.Base.{ℕ, Bool, Option, String}
use schlass.Store.Tables.{Db, User}
use schlass.Valkey.Server.{Valkey}

-- The values of the query; a missing one is "".
pub record Query : Type 0 where
  pub client_id : String
  pub redirect_uri : String
  pub response_type : String
  pub state : String
  pub code_challenge : String
  pub code_challenge_method : String
  pub scope : String
  pub prompt : String
  pub max_age : String
  pub nonce : String

-- The calls of PostgreSQL that may fail, in one request.
pub data Call : Type 0 where
  client_query begin_tx insert_code audit_insert commit side_begin side_insert side_commit : Call

-- uuid.Parse, sha256hex and url.QueryEscape; the user and the cookie of the request; its path with the
-- query; time.Now() in nanoseconds; the random values, `none` where rand.Read fails.
pub record Env : Type 0 where
  pub parse_uuid : String → Option String
  pub sha256hex : String → String
  pub query_escape : String → String
  pub current_user : Option User
  pub cookie : Option String
  pub request_uri : String
  pub session_ttl : ℕ
  pub now : ℕ
  pub fresh_code : Option String
  pub fresh_family : String
  pub error_ref : Option String
  pub ip : String
  pub fails : Call → Bool

-- A redirection: to the page of local errors, to the client with an error or with a code, to the login
-- page. The client's URI is followed by the separator and the parameters.
pub data Reply : Type 0 where
  local_error : (ref : String) → Reply
  redirect_error : (uri separator error description state : String) → Reply
  redirect_code : (uri separator code state : String) → Reply
  to_login : (return_to : String) → Reply

pub record World (K : Valkey) : Type 0 where
  pub db : Db
  pub kv : K.State

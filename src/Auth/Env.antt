-- ===== src/Auth/Env.antt =====
-- What a request to the handlers of internal/auth and internal/users starts from, and their replies.
use schlass.Base.{ℕ, ℤ, Bool, Option, List, String, Result}
use schlass.Store.Tables.{Db, User}
use schlass.Valkey.Keys.{Session}
use schlass.Valkey.Server.{Valkey}
use schlass.Oidc.ReturnTo.{Url}
use schlass.Validate.Credentials.{PasswordPolicy, CredentialError}
use schlass.Auth.RecoveryCodes.{RecoveryCode}
use schlass.Auth.ResetTokens.{ResetToken}

-- The values of the instance configuration that the handlers read.
pub record Settings : Type 0 where
  pub lockout_threshold : ℕ
  pub lockout_duration_secs : ℕ
  pub mfa_required : Bool
  pub password_policy : PasswordPolicy
  pub instance_name : String

pub record Tables : Type 0 where
  pub core : Db
  pub recovery_codes : List RecoveryCode
  pub reset_tokens : List ResetToken
  pub settings : Settings

-- What the handlers call of packages strings, net/url, net/mail, unicode and encoding/json, of
-- google/uuid, and of internal/crypto; `none` is an error.
pub record Lib : Type 0 where
  pub to_lower : String → String
  pub parse_url : String → Option Url
  pub parse_address : String → Bool
  pub is_upper : ℕ → Bool
  pub is_digit : ℕ → Bool
  pub parse_uuid : String → Option String
  pub verify_password : String → String → Result (Unit {0}) Bool
  pub hash_password : String → Option String
  pub is_pwned : String → Option Bool
  pub hmac_token : String → String
  pub encrypt : (secret aad : String) → Option String
  pub decrypt : (encrypted : Option String) → (aad : String) → Option String
  pub totp_valid : (code secret : String) → (step : ℕ) → Option Bool
  pub build_provision_uri : (issuer email secret : String) → Option String
  pub marshal : List String → Option String
  pub unmarshal : String → Option (List String)

-- The fields of the handlers that are no stores; a session lives for `session_ttl` seconds.
pub record Config : Type 0 where
  pub public_url : String
  pub session_ttl : ℕ

-- The calls of PostgreSQL that may fail, in one request.
pub data Call : Type 0 where
  threshold_query duration_query mfa_query policy_query name_query begin_tx commit : Call
  email_query user_query fresh_query count_query codes_query token_query : Call
  increment_update reset_update login_update password_update lockout_update totp_update : Call
  counter_update codes_insert codes_delete mark_update invalidate_update token_insert : Call
  audit_insert second_insert third_insert fourth_insert : Call
  side_begin side_query side_insert side_commit : Call
  lock_query admins_query user_insert row_update status_update user_delete scrub_query : Call

-- Times are nanoseconds: time.Now() of the handler and of the session store, and now() of the
-- transaction. A missing cookie is `none`. `fresh` is what rand.Read gives for a session,
-- `fresh_token` for a cookie or a reset token, `fresh_secret` for TOTP; `fresh_codes` are recovery
-- codes with their hashes, and `ids` the ids that the database gives.
pub record Env : Type 0 where
  pub now : ℕ
  pub session_now : ℕ
  pub sql_now : ℕ
  pub origin : String
  pub ip : String
  pub user_agent : String
  pub session_cookie : Option String
  pub enroll_cookie : Option String
  pub challenge_cookie : Option String
  pub current_user : Option User
  pub fresh : Option String
  pub fresh_token : Option String
  pub fresh_secret : Option String
  pub fresh_codes : Option (List (String × String))
  pub ids : ℕ → String
  pub fails : Call → Bool

-- userDTO
pub record UserDto : Type 0 where
  pub id : String
  pub email : String
  pub role : String
  pub status : String
  pub force_password_change : Bool
  pub created_at : ℕ
  pub updated_at : ℕ
  pub totp_enrolled_at : Option ℕ
  pub last_login_at : Option ℕ

abbrev pub user_dto : User → UserDto
user_dto u = record {
  id = u.id;
  email = u.email;
  role = u.role;
  status = u.status;
  force_password_change = u.force_password_change;
  created_at = u.created_at;
  updated_at = u.updated_at;
  totp_enrolled_at = u.totp_enrolled_at;
  last_login_at = u.last_login_at;
}

-- The replies, with the cookies that they set. `policy_violation` is a failure whose message is that of
-- the error. A `redirect_to` of "" is left out. `crashed` is a
-- panic, for which net/http closes the connection.
pub data Reply : Type 0 where
  failure : (status : ℕ) (code message : String) → Reply
  policy_violation : CredentialError → Reply
  account_locked : (retry_after_seconds : ℤ) → Reply
  signed_in : (session : String) (user : UserDto) (redirect_to : String) → Reply
  enrollment_required : (enroll_token : String) → Reply
  totp_required : (challenge_token : String) → Reply
  signed_out : Reply
  password_changed : (session redirect_to : String) → Reply
  mfa_disabled : Reply
  me : (user : UserDto) (force_mfa_enrollment : Bool) (unused_recovery_codes : Option ℕ) → Reply
  enrollment_started : (enroll_token : Option String) (secret_base32 provision_uri : String) → Reply
  enrollment_verified : (recovery_codes : List String) → Reply
  enrolled : (session : Option String) (user : UserDto) (redirect_to : String) → Reply
  accepted : Reply
  reset_done : (user_id : String) → Reply
  user_created : (user : UserDto) (temporary_password : String) → Reply
  user_shown : (user : UserDto) (sessions : List (String × Session)) → Reply
  user_changed : (user : UserDto) → Reply
  password_given : (temporary_password : String) → Reply
  sessions_listed : List (String × Session) → Reply
  no_content : Reply
  crashed : Reply

-- The tables as committed, the open transaction's view of them, and Valkey.
pub record World (K : Valkey) : Type 0 where
  pub db : Tables
  pub view : Tables
  pub kv : K.State

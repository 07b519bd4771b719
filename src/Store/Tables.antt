-- ===== src/Store/Tables.antt =====
-- The rows that the stores scan: users.User, clients.Client, AuthCodeRow, SigningKey, audit.Entry.
use schlass.Base.{ℕ, String, Bool, Option, List}

pub record User : Type 0 where
  pub id : String
  pub email : String
  pub password_hash : String
  pub role : String
  pub status : String
  pub force_password_change : Bool
  pub totp_secret_encrypted : Option String
  pub totp_enrolled_at : Option ℕ
  pub failed_login_attempts : ℕ
  pub locked_until : Option ℕ
  pub last_used_totp_counter : ℕ
  pub last_login_at : Option ℕ
  pub created_at : ℕ
  pub updated_at : ℕ

pub record Client : Type 0 where
  pub id : String
  pub name : String
  pub client_type : String
  pub secret_hash : Option String
  pub secret_hash_previous : Option String
  pub secret_previous_expires_at : Option ℕ
  pub redirect_uris : List String
  pub allowed_grant_types : List String
  pub allowed_scopes : List String
  pub token_endpoint_auth_method : String
  pub status : String
  pub disabled_at : Option ℕ
  pub created_by_user_id : Option String
  pub created_at : ℕ
  pub updated_at : ℕ

-- A row of `authorization_codes`: AuthCodeRow and the column `used`, which the Go type leaves out.
pub record AuthCode : Type 0 where
  pub code_hash : String
  pub client_id : String
  pub user_id : String
  pub redirect_uri : String
  pub scopes : List String
  pub nonce : Option String
  pub code_challenge : String
  pub code_challenge_method : String
  pub expires_at : ℕ
  pub family_id : String
  pub used : Bool

pub record SigningKey : Type 0 where
  pub id : String
  pub algorithm : String
  pub public_key_pem : String
  pub private_key_encrypted : String
  pub status : String
  pub created_at : ℕ
  pub rotated_at : Option ℕ

-- audit.Entry; of the metadata, the family of tokens that the event is about.
pub record Entry : Type 0 where
  pub event_type : String
  pub actor_id : Option String
  pub actor_email : String
  pub target_type : String
  pub target_id : String
  pub client_id : Option String
  pub ip_address : String
  pub outcome : String
  pub family_id : Option String

pub record Db : Type 0 where
  pub users : List User
  pub clients : List Client
  pub codes : List AuthCode
  pub keys : List SigningKey
  pub audit_logs : List Entry
  pub access_token_ttl_secs : ℕ
  pub refresh_token_ttl_secs : ℕ

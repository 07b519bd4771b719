-- ===== src/Valkey/Keys.antt =====
-- The keys and the values that the program keeps in Valkey. A key is its prefix and what follows;
-- a value is the Go value whose JSON text is stored, or a text.
use schlass.Base.{ℕ, Bool, false, List, String, ◌==◌}

-- RefreshPayload of internal/oidc/refresh_store.go; times are seconds.
pub record RefreshPayload : Type 0 where
  pub user_id : String
  pub client_id : String
  pub scopes : List String
  pub family_id : String
  pub created_at : ℕ
  pub expires : ℕ
  pub used : Bool

-- Session of internal/session/store.go; times are nanoseconds.
pub record Session : Type 0 where
  pub user_id : String
  pub created_at : ℕ
  pub last_seen_at : ℕ
  pub ip_address : String
  pub user_agent : String
  pub pending_return_to : String

pub data Value : Type 0 where
  refresh_json : RefreshPayload → Value
  session_json : Session → Value
  cutoff_secs : ℕ → Value
  plain : String → Value

-- "oidc:refresh:", "oidc:refresh:family:", "session:", "user_sessions:", "user:revoke_before:",
-- "client:revoke_before:", "ratelimit:oidc:token:", "mfa:enroll:" and "mfa:challenge:". A hash is hexadecimal, so no refresh key is
-- a family key.
pub data Key : Type 0 where
  refresh_key family_key session_key user_sessions_key : String → Key
  user_revoke_key client_revoke_key token_rate_key enroll_key challenge_key : String → Key

abbrev pub same_key : Key → Key → Bool
same_key (refresh_key a) (refresh_key b) = a == b
same_key (family_key a) (family_key b) = a == b
same_key (session_key a) (session_key b) = a == b
same_key (user_sessions_key a) (user_sessions_key b) = a == b
same_key (user_revoke_key a) (user_revoke_key b) = a == b
same_key (client_revoke_key a) (client_revoke_key b) = a == b
same_key (token_rate_key a) (token_rate_key b) = a == b
same_key (enroll_key a) (enroll_key b) = a == b
same_key (challenge_key a) (challenge_key b) = a == b
same_key _ _ = false

-- ===== src/Validate/Settings.antt =====
-- The validators of internal/settings/validate.go, for the numbers.
use schlass.Base.{
  ℕ, ◌≤◌, ◌≡◌, ◌↔◌, Bool, true, false, ◌||◌, Option, none, some, String, ltb, if◌then◌else◌, arith,
}

-- A Go int of a request body.
pub data ℤ : Type 0 where
  pos : ℕ → ℤ
  negsuc : ℕ → ℤ

abbrev pub out_of_range : (low high : ℕ) → ℤ → Bool
out_of_range low high (pos v) = ltb v low || ltb high v
out_of_range low high (negsuc v) = true

-- The check of a field that may be left out.
abbrev pub checked : (low high : ℕ) → Option ℤ → Bool
checked low high none = true
checked low high (some v) = if out_of_range low high v then false else true

pub record SecuritySettings : Type 0 where
  pub mfa_required : Option Bool
  pub password_min_length : Option ℤ
  pub password_require_upper : Option Bool
  pub password_require_digit : Option Bool
  pub lockout_threshold : Option ℤ
  pub lockout_duration_secs : Option ℤ

pub record TokenSettings : Type 0 where
  pub access_token_ttl_secs : Option ℤ
  pub refresh_token_ttl_secs : Option ℤ

-- The code of the ValidationError; `none` is no error.
unfoldable pub validate_security_settings : SecuritySettings → Option String
validate_security_settings s =
    if checked 8 128 s.password_min_length
    then (if checked 1 50 s.lockout_threshold
        then (if checked 60 86400 s.lockout_duration_secs
            then none
            else some "LOCKOUT_DURATION_OUT_OF_RANGE")
        else some "LOCKOUT_THRESHOLD_OUT_OF_RANGE")
    else some "PASSWORD_MIN_LENGTH_OUT_OF_RANGE"

unfoldable pub validate_token_settings : TokenSettings → Option String
validate_token_settings s =
    if checked 300 3600 s.access_token_ttl_secs
    then (if checked 3600 604800 s.refresh_token_ttl_secs
        then none
        else some "REFRESH_TOKEN_TTL_OUT_OF_RANGE")
    else some "ACCESS_TOKEN_TTL_OUT_OF_RANGE"

-- A field that is given is a number within the bounds.
abbrev pub IsWithin : (low high : ℕ) → Option ℤ → Type 0
IsWithin low high none = Unit
IsWithin low high (some (pos v)) = (low ≤ v) × (v ≤ high)
IsWithin low high (some (negsuc v)) = ⊥

checked_iff : (low high : ℕ) (o : Option ℤ) → (checked low high o ≡ true) ↔ IsWithin low high o
checked_iff low high none = ground arith
checked_iff low high (some (pos v)) = ground arith
checked_iff low high (some (negsuc v)) = ground arith

-- The security settings and the token settings are accepted exactly when every number that is given lies in its range.
pub settings_accepted_iff :
    (s : SecuritySettings) (t : TokenSettings)
    → ((validate_security_settings s ≡ none) × (validate_token_settings t ≡ none)) ↔ (
        IsWithin 8 128 s.password_min_length
        × IsWithin 1 50 s.lockout_threshold
        × IsWithin 60 86400 s.lockout_duration_secs
        × IsWithin 300 3600 t.access_token_ttl_secs
        × IsWithin 3600 604800 t.refresh_token_ttl_secs)
unfolding validate_security_settings validate_token_settings
settings_accepted_iff s t = ground (
  arith,
  checked_iff 8 128 s.password_min_length,
  checked_iff 1 50 s.lockout_threshold,
  checked_iff 60 86400 s.lockout_duration_secs,
  checked_iff 300 3600 t.access_token_ttl_secs,
  checked_iff 3600 604800 t.refresh_token_ttl_secs,
)

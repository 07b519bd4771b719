-- ===== src/Tests/Rules.antt =====
-- The checks and the conversions on concrete values.
use Prim.Native.String.{String}
use schlass.Base.{
  ℕ, ◌≤◌, ◌<◌, ◌+◌, ◌/◌, ◌%◌, ◌≡◌, ◌↔◌, refl, Bool, true, false, Option, none, some, List, [], ◌∷◌,
  ok, arith, All, In, IsWord, IsWord-by_test, if◌then◌else◌, nat_eq, no_space, fields, ◌==◌,
  byte_len, has_char,
}
use schlass.Oidc.Scopes.{
  Scopes, to_string, keep_allowed, refuse_empty, intersect_scopes_against_client,
}
use schlass.Oidc.Scopes.Narrowing.{intersect-narrows}
use schlass.Oidc.Scopes.Words.{fields-to_string}
use schlass.Oidc.ReturnTo
use schlass.Oidc.ReturnTo.{
  canonical, sanitize_return_to, IsLocalAuthorize, IsOwn, sanitize_return_to-IsLocal,
}
use schlass.Auth.Totp.{try_steps, validate_totp, validate_totp_sound}
use schlass.Validate.Grants.{check_scopes, validate_scopes}
use schlass.Validate.RedirectUri
use schlass.Validate.RedirectUri.{
  has_whitespace, validate_redirect_uri_input, IsSafe, validate_redirect_uri_input_sound,
}
use schlass.Validate.Settings.{pos, SecuritySettings, TokenSettings}
use schlass.Authorize.MaxAge.{parse_uint, parse_uint_decimal, decimal_from}
use mathlib.Core.List.{Sublistᴰ}

abbrev granted : Scopes
granted = "openid" ∷ "email" ∷ "offline_access" ∷ []

abbrev allowed : Scopes
allowed = "offline_access" ∷ "openid" ∷ []

abbrev narrowed : Scopes
narrowed = "openid" ∷ "offline_access" ∷ []

intersected : intersect_scopes_against_client granted allowed ≡ some narrowed
unfolding intersect_scopes_against_client keep_allowed refuse_empty
intersected = refl

intersect-narrows_example :
    ((x : String) → In x narrowed ↔ (In x granted × In x allowed)) × Sublistᴰ narrowed granted
intersect-narrows_example = intersect-narrows granted allowed intersected

words : All IsWord narrowed
unfolding no_space
words = (IsWord-by_test "openid" refl refl, (IsWord-by_test "offline_access" refl refl, tt))

fields-to_string_example : fields (to_string narrowed) ≡ narrowed
fields-to_string_example = fields-to_string narrowed words

-- A parser that knows two texts.
abbrev own_url : String → Option ReturnTo.Url
own_url s = some (record {
  scheme = "https";
  host = "id.example";
  path = "/authorize";
  raw_query = if s == "a" then "client_id=app" else "";
})

sanitized : sanitize_return_to own_url "a" "https://id.example" ≡ some "/authorize?client_id=app"
unfolding sanitize_return_to canonical
sanitized = refl

sanitize_return_to-IsLocal_example :
    IsLocalAuthorize "/authorize?client_id=app"
    × ((u : ReturnTo.Url) × (server : ReturnTo.Url) × (own_url "a" ≡ some u)
        × (own_url "https://id.example" ≡ some server)
        × IsOwn u.scheme server.scheme
        × IsOwn u.host server.host)
sanitize_return_to-IsLocal_example =
    sanitize_return_to-IsLocal own_url "a" "https://id.example" "/authorize?client_id=app" sanitized

-- A code that is valid at step 3 only.
abbrev at_three : ℕ → Option Bool
at_three step = some (nat_eq step 3)

matched : validate_totp at_three 120 2 ≡ ok (some 3)
unfolding validate_totp try_steps
matched = refl

validate_totp_sound_example :
    (at_three 3 ≡ some true) × (2 < 3) × (3 ≤ 120 / 30 + 1) × (120 / 30 ≤ 3 + 1)
validate_totp_sound_example = validate_totp_sound at_three 120 2 3 matched

unmatched : validate_totp at_three 120 3 ≡ ok none
unfolding validate_totp try_steps
unmatched = refl

scopes_accepted : validate_scopes granted ≡ none
unfolding validate_scopes check_scopes
scopes_accepted = refl

abbrev one_grant : List String
one_grant = "refresh_token" ∷ []

abbrev callback : RedirectUri.Url
callback = record {
  scheme = "http";
  host = "localhost:3000";
  hostname = "localhost";
  path = "/cb";
  fragment = "";
}

uri_accepted : validate_redirect_uri_input (λ s. some callback) "http://localhost:3000/cb" ≡ none
unfolding validate_redirect_uri_input has_whitespace has_char byte_len
uri_accepted = refl

validate_redirect_uri_input_sound_example :
    (byte_len "http://localhost:3000/cb" ≤ 2048)
    × (has_char 32 "http://localhost:3000/cb" ≡ false)
    × (has_char 9 "http://localhost:3000/cb" ≡ false)
    × (has_char 13 "http://localhost:3000/cb" ≡ false)
    × (has_char 10 "http://localhost:3000/cb" ≡ false)
    × (has_char 35 "http://localhost:3000/cb" ≡ false)
    × ((u : RedirectUri.Url) × (some callback ≡ some u) × IsSafe u)
validate_redirect_uri_input_sound_example =
    validate_redirect_uri_input_sound (λ s. some callback) "http://localhost:3000/cb" uri_accepted

abbrev security : SecuritySettings
security = record {
  mfa_required = none;
  password_min_length = some (pos 12);
  password_require_upper = none;
  password_require_digit = none;
  lockout_threshold = some (pos 5);
  lockout_duration_secs = none;
}

abbrev lifetimes : TokenSettings
lifetimes = record { access_token_ttl_secs = some (pos 900); refresh_token_ttl_secs = none }

parse_uint_decimal_example :
    parse_uint "18446744073709551616"
    ≡ some (decimal_from 0 "18446744073709551616" % 18446744073709551616)
parse_uint_decimal_example = parse_uint_decimal "18446744073709551616" refl (ground arith)

-- So 2^64 seconds are read as 0.
wraps_around : parse_uint "18446744073709551616" ≡ some 0
unfolding parse_uint
wraps_around = refl

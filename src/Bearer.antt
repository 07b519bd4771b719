-- ===== src/Bearer.antt =====
-- BearerAuth of internal/authserver/bearer_middleware.go, and the /userinfo endpoint behind it.
pub mod Acceptance
pub mod UserInfo
use Prim.Native.Char.{Char, code}
use Prim.Native.String.{String, [], ◌∷◌}
use schlass.Base.{
  ℕ, ◌+◌, ◌-◌, ◌≡◌, Bool, true, false, not, ◌&&◌, ◌||◌, Option, none, some, List, ◌==◌, ltb, leb,
  nat_eq, trim_space, if◌then◌else◌, Result, ok, err, Outcome, next, reply, Handler, respond, give,
  ensure, value_or, ◌>>=◌, ◌>>◌,
}
use schlass.Store.Tables.{Db, User, SigningKey}
use schlass.Store.Sql.{find}
use schlass.SigningKeys.{list_publishable}
use schlass.Valkey.Server.{Valkey}
use schlass.Session.RevokeBefore.{CutoffError, revoke_before_get, revoke_before_client_get}
use schlass.Oidc.Claims.{unix, AccessTokenClaims}
use schlass.Oidc.Jwt.{Jwt, parse_and_verify_access_token}

-- writeBearerError: a status, an error of RFC 6750 and its description.
pub data Refusal : Type 0 where
  refused : (status : ℕ) (error description : String) → Refusal

abbrev pub invalid_token : String → Refusal
invalid_token description = refused 401 "invalid_token" description

-- strings.EqualFold against "Bearer": no letter of it folds to one outside ASCII.
abbrev pub lower : ℕ → ℕ
lower c = if leb 65 c && leb c 90 then c + 32 else c

unfoldable pub equal_fold : String → String → Bool
equal_fold [] [] = true
equal_fold [] (d ∷ t) = false
equal_fold (c ∷ s) [] = false
equal_fold (c ∷ s) (d ∷ t) = nat_eq (lower (code c)) (lower (code d)) && equal_fold s t

-- strings.SplitN(header, " ", 2): what is before and after the first space; `none` if there is none.
unfoldable pub split_space : String → Option (String × String)
split_space [] = none
split_space (c ∷ s) =
    if nat_eq (code c) 32
    then some ("", s)
    else elim (split_space s) [ none ↦ none | some (before, after) ↦ some (c ∷ before, after) ]

unfoldable pub extract_bearer_token : String → String
extract_bearer_token header = elim (split_space header) [
  | none ↦ ""
  | some (scheme, token) ↦ if equal_fold scheme "Bearer" then trim_space token else ""
]

-- The issuer of BearerAuthDeps, the clock in nanoseconds, the JWT library and uuid.Parse, and the queries that fail.
pub record BearerEnv : Type 0 where
  pub issuer : String
  pub now : ℕ
  pub parse_jwt : String → Option Jwt
  pub verify_rs256 : String → String → Bool
  pub parse_uuid : String → Option String
  pub keys_fail : Bool
  pub user_fails : Bool

abbrev pub clock_skew_secs : ℕ
clock_skew_secs = 30

abbrev pub pem_of : Option SigningKey → Option String
pem_of none = none
pem_of (some k) = some k.public_key_pem

-- The key of the published set that has the id `kid`.
unfoldable pub lookup_key : Bool → List SigningKey → String → Option String
lookup_key fails keys kid =
    if fails then none else pem_of (find (λ k. k.id == kid) (list_publishable keys))

-- A cutoff that cannot be read lets the token pass.
abbrev pub not_before_cutoff : Result CutoffError ℕ → ℕ → Bool
not_before_cutoff (err e) issued_at = true
not_before_cutoff (ok cutoff) issued_at = not (ltb issued_at cutoff)

module _ (K : Valkey) (env : BearerEnv) (db : Db) (kv : K.State) where
  abbrev pub Step : Type 0 → Type 0
  Step A = Handler (Unit {0}) Refusal A

  -- Issuer, audience, expiry and not-before, with 30 seconds of skew; 0 stands for no limit.
  unfoldable pub check_claims : AccessTokenClaims → Step (Unit {0})
  check_claims c = do
    ensure (c.issuer == env.issuer) (invalid_token "issuer mismatch")
    ensure (not (c.audience == "")) (invalid_token "audience missing")
    ensure (not (ltb 0 c.expires && ltb (c.expires + clock_skew_secs) (unix env.now)))
        (invalid_token "token expired")
    ensure (not (ltb 0 c.not_before && ltb (unix env.now + clock_skew_secs) c.not_before))
        (invalid_token "token not yet valid")

  abbrev pub active_subject : Option User → Step User
  active_subject none = respond (invalid_token "user no longer exists")
  active_subject (some u) =
      if u.status == "active" then give u else respond (invalid_token "user not active")

  unfoldable pub load_subject : AccessTokenClaims → Step User
  load_subject c = do
    uid ← value_or (env.parse_uuid c.subject) (invalid_token "subject not a UUID")
    ensure (not env.user_fails) (refused 500 "server_error" "lookup failed")
    active_subject (find (λ u. u.id == uid) db.users)

  -- The cutoffs of the user and of the client.
  unfoldable pub check_cutoffs : AccessTokenClaims → User → Step (Unit {0})
  check_cutoffs c u = do
    ensure (not_before_cutoff (revoke_before_get K u.id kv) c.issued_at)
        (invalid_token "token revoked")
    ensure (not_before_cutoff (revoke_before_client_get K c.audience kv) c.issued_at)
        (invalid_token "token revoked by client mutation")

  -- The user and the claims that the next handler finds in its context.
  unfoldable pub bearer_auth : (header : String) → Step (User × AccessTokenClaims)
  bearer_auth header = do
    ensure (not (extract_bearer_token header == "")) (invalid_token "Bearer token missing")
    c ←
        value_or
          (parse_and_verify_access_token env.parse_jwt env.verify_rs256
            (lookup_key env.keys_fail db.keys) (extract_bearer_token header))
          (invalid_token "signature or header invalid")
    check_claims c
    u ← load_subject c
    check_cutoffs c u
    give (u, c)

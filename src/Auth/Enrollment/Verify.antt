-- ===== src/Auth/Enrollment/Verify.antt =====
-- PostEnrollmentVerify of internal/auth/mfa.go.
use schlass.Base.{
  ℕ, ℤ, pos, negsuc, Option, none, some, List, [], ◌∷◌, String, ltb, nat_eq, if◌then◌else◌,
  byte_len, Result, ok, err, Outcome, next, reply, respond, give, ensure, value_or, ◌>>=◌, ◌>>◌,
}
use schlass.Valkey.Keys.{enroll_key}
use schlass.Valkey.Server.{Valkey, del}
use schlass.Valkey.Hashes.{Hashes}
use schlass.Oidc.Claims.{unix}
use schlass.Auth.Totp.{validate_totp}
use schlass.Auth.Challenge.{cookie_value, nonempty, invalid_code}
use schlass.Auth.Env.{Lib, Config, Env, Reply, failure, enrollment_verified, World}
use schlass.Auth.Steps.{internal_error, invalid_body, Step}
use schlass.Auth.Enrollment.{put, no_enroll_auth, start_again}

abbrev pub seconds : List (String × String) → List String
seconds [] = []
seconds ((code, hash) ∷ codes) = hash ∷ seconds codes

abbrev pub firsts : List (String × String) → List String
firsts [] = []
firsts ((code, hash) ∷ codes) = code ∷ firsts codes

module _ (K : Valkey) (H : Hashes K) (lib : Lib) (config : Config) (env : Env) where
  open lib use {totp_valid, marshal}

  -- The answer of HINCRBY: how many attempts there were with this one.
  abbrev pub attempt : String → World K → K.State × Option ℤ → World K × Outcome Reply (Unit {0})
  attempt token w (s, none) = (record w { kv = s }, reply internal_error)
  attempt token w (s, some (negsuc n)) = (record w { kv = s }, next tt)
  attempt token w (s, some (pos n)) =
      if ltb 5 n
      then (
        record w { kv = (K.pipe (del (enroll_key token) ∷ []) s).0 },
        reply (
            failure 401 "MFA_ENROLLMENT_EXPIRED"
              "Too many failed verification attempts — please start again."),
      )
      else (record w { kv = s }, next tt)

  unfoldable pub count_attempt : String → Step K env (Unit {0})
  count_attempt token w =
      attempt token w (H.hincr (enroll_key token) "verify_attempts" (pos 1) w.kv)

  -- The code must be valid for the secret of the enrollment.
  abbrev pub code_matches : Result (Unit {0}) (Option ℕ) → Step K env (Unit {0})
  code_matches (err e) = respond internal_error
  code_matches (ok none) = respond invalid_code
  code_matches (ok (some step)) = give tt

  unfoldable pub check_code : String → String → Step K env (Unit {0})
  check_code token code = do
    ensure (nat_eq (byte_len code) 6) invalid_code
    secret ← λ w. value_or (nonempty (H.hget (enroll_key token) "secret_base32" w.kv)) start_again w
    code_matches (validate_totp (totp_valid code secret) (unix env.now) 0)

  -- `body` is the code of the request.
  unfoldable pub post_enrollment_verify : (body : Option String) → Step K env ⊥
  unfolding check_code
  post_enrollment_verify body = do
    token ← value_or (cookie_value env.enroll_cookie) no_enroll_auth
    count_attempt token
    code ← value_or body invalid_body
    check_code token code
    codes ← value_or env.fresh_codes internal_error
    hashes ← value_or (marshal (seconds codes)) internal_error
    put K H lib config env token "recovery_hashes" hashes
    respond (enrollment_verified (firsts codes))

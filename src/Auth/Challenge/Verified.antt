-- ===== src/Auth/Challenge/Verified.antt =====
-- What the check of a code ends in.
use schlass.Base.{
  ℕ, ◌≡◌, ◌≢◌, refl, ◌⊎◌, inl, inr, false, Option, none, some, List, [], ◌∷◌, String, ◌==◌, Result,
  ok, err, Ends, Ends-go_on, Ends-weaken, go_on, arith, eq_iff, Bool-cases, Option-cases,
}
use schlass.Store.Tables.{User}
use schlass.Valkey.Keys.{challenge_key}
use schlass.Valkey.Server.{Valkey, del}
use schlass.Valkey.Hashes.{Hashes}
use schlass.Oidc.Claims.{unix}
use schlass.Session.Store.{SessionError, create}
use schlass.Users.Store.{advance_totp_counter, set_last_login_at}
use schlass.Auth.Totp.{validate_totp}
use schlass.Auth.RecoveryCodes.{RecoveryCode, list_unused}
use schlass.Auth.RecoveryCodes
use schlass.Auth.Env.{codes_query, Lib, Config, Env, Reply, signed_in, user_dto, World}
use schlass.Auth.Challenge.{
  ChallengeRequest, totp_secret_aad, matched_code, refuse_code, check_totp, sign_in_by_totp,
  sign_in_by_recovery_code, verify_recovery_code, verify_code,
}

module _ (K : Valkey) (H : Hashes K) (lib : Lib) (config : Config) (env : Env)
    (body : Option ChallengeRequest) where
  -- The session that is started when the challenge is gone.
  abbrev pub session_after : String → User → K.State → K.State × Result SessionError String
  session_after token u kv =
      create K config.session_ttl env.session_now env.fresh u.id env.ip env.user_agent
        (K.pipe (del (challenge_key token) ∷ []) kv).0

  -- What a sign-in leaves: the session, the users and the recovery codes.
  abbrev pub Signed :
      String → User → String → List User → List RecoveryCode → K.State → Reply → World K → Type 0
  Signed token u path users codes kv (signed_in session dto to) s =
      (dto ≡ user_dto u)
      × (to ≡ path)
      × (session_after token u kv ≡ (s.kv, ok session))
      × (s.db.core.users ≡ users)
      × (s.db.recovery_codes ≡ codes)
  Signed token u path users codes kv _ s = Unit {0}

  abbrev logged : User → List User → List User
  logged u users = (set_last_login_at false env.sql_now u.id users).0

  sign_in_by_totp-Ends :
      (token : String) (u : User) (path : String) (step : ℕ) (w : World K)
      → Ends
          (λ _ _. ⊥)
          (Signed token u path
            (logged u (advance_totp_counter false u.id step w.db.core.users).0)
            w.db.recovery_codes
            w.kv)
          (sign_in_by_totp K H lib config env body token u path step w)
  unfolding sign_in_by_totp advance_totp_counter set_last_login_at
  sign_in_by_totp-Ends token u path step w = ground arith

  sign_in_by_recovery_code-Ends :
      (token : String) (u : User) (path code_id : String) (w : World K)
      → Ends
          (λ _ _. ⊥)
          (Signed token u path
            (logged u w.db.core.users)
            (RecoveryCodes.mark_used env.sql_now code_id w.db.recovery_codes).0
            w.kv)
          (sign_in_by_recovery_code K H lib config env body token u path code_id w)
  unfolding sign_in_by_recovery_code set_last_login_at
  sign_in_by_recovery_code-Ends token u path code_id w = ground arith

  -- What ValidateTOTP says of a code of the user; an error where the secret cannot be decrypted.
  abbrev pub totp_answer : User → String → Result (Unit {0}) (Option ℕ)
  totp_answer u code = elim (lib.decrypt u.totp_secret_encrypted (totp_secret_aad u.id)) [
    | none ↦ err tt
    | some secret ↦
        validate_totp (lib.totp_valid code secret) (unix env.now) u.last_used_totp_counter
  ]

  -- Why a request signs in, and what that leaves: by a code of the authenticator, whose step is now the
  -- last one used, or by an unused recovery code, which is now used.
  abbrev pub Verified :
      String → ChallengeRequest → User → String → World K → Reply → World K → Type 0
  Verified token req u path w (signed_in session dto to) s =
      ((step : ℕ) × (req.recovery_code ≡ "")
        × (totp_answer u req.code ≡ ok (some step))
        × Signed token u path (logged u (advance_totp_counter false u.id step w.db.core.users).0)
            w.db.recovery_codes w.kv (signed_in session dto to) s)
      ⊎ ((code_id : String) × (req.recovery_code ≢ "")
          × (matched_code lib.verify_password req.recovery_code
                (list_unused u.id w.db.recovery_codes)
              ≡ some code_id)
          × Signed token u path (logged u w.db.core.users)
              (RecoveryCodes.mark_used env.sql_now code_id w.db.recovery_codes).0 w.kv
              (signed_in session dto to) s)
  Verified token req u path w _ s = Unit {0}

  abbrev pub Unsigned : Reply → Type 0
  Unsigned (signed_in session dto to) = ⊥
  Unsigned _ = Unit {0}

  Unsigned-Verified :
      (token : String) (req : ChallengeRequest) (u : User) (path : String) (w : World K) (r : Reply)
      (s : World K)
      → Unsigned r
      → Verified token req u path w r s
  Unsigned-Verified token req u path w (signed_in session dto to) s h = absurd h
  Unsigned-Verified token req u path w _ s h = tt

  check_totp-Ends :
      (token : String) (remaining : ℕ) (u : User) (code : String) (w : World K)
      → Ends
          (λ step s. (s ≡ w) × (totp_answer u code ≡ ok (some step)))
          (λ r _. Unsigned r)
          (check_totp K H lib config env body token remaining u code w)
  unfolding check_totp refuse_code
  check_totp-Ends token remaining u code w = ground arith

  by_totp :
      (token : String) (req : ChallengeRequest) (u : User) (path : String) (step : ℕ) (w : World K)
      → req.recovery_code ≡ ""
      → totp_answer u req.code ≡ ok (some step)
      → (r : Reply) (s : World K)
      → Signed token u path
          (logged u (advance_totp_counter false u.id step w.db.core.users).0)
          w.db.recovery_codes
          w.kv
          r
          s
      → Verified token req u path w r s
  by_totp token req u path step w empty valid (signed_in session dto to) s h =
      inl (step, empty, valid, h)
  by_totp token req u path step w empty valid _ s h = tt

  by_recovery_code :
      (token : String) (req : ChallengeRequest) (u : User) (path code_id : String) (w : World K)
      → req.recovery_code ≢ ""
      → matched_code lib.verify_password req.recovery_code (list_unused u.id w.db.recovery_codes)
        ≡ some code_id
      → (r : Reply) (s : World K)
      → Signed token u path
          (logged u w.db.core.users)
          (RecoveryCodes.mark_used env.sql_now code_id w.db.recovery_codes).0
          w.kv
          r
          s
      → Verified token req u path w r s
  by_recovery_code token req u path id w given valid (signed_in session dto to) s h =
      inr (id, given, valid, h)
  by_recovery_code token req u path id w given valid _ s h = tt

  totp-Ends :
      (token : String) (remaining : ℕ) (req : ChallengeRequest) (u : User) (path : String)
      (w : World K)
      → req.recovery_code ≡ ""
      → Ends
          (λ _ _. ⊥)
          (Verified token req u path w)
          (go_on
            (check_totp K H lib config env body token remaining u req.code w)
            (sign_in_by_totp K H lib config env body token u path))
  totp-Ends token remaining req u path w empty =
      Ends-go_on (λ step s. (s ≡ w) × (totp_answer u req.code ≡ ok (some step))) (λ _ _. ⊥)
        (Verified token req u path w) _ _
        (Ends-weaken (λ step s. (s ≡ w) × (totp_answer u req.code ≡ ok (some step)))
          (λ r _. Unsigned r) (Verified token req u path w) _ (Unsigned-Verified token req u path w)
          (check_totp-Ends token remaining u req.code w))
        λ step s (same, valid). rw same (
          Ends-weaken (λ _ _. ⊥)
            (Signed token u path (logged u (advance_totp_counter false u.id step w.db.core.users).0)
              w.db.recovery_codes w.kv)
            (Verified token req u path w) _ (by_totp token req u path step w empty valid)
            (sign_in_by_totp-Ends token u path step w))

  recovery-Ends :
      (token : String) (req : ChallengeRequest) (u : User) (path : String) (w : World K)
      → req.recovery_code ≢ ""
      → Ends
          (λ _ _. ⊥)
          (Verified token req u path w)
          (verify_recovery_code K H lib config env body token u path req.recovery_code w)
  unfolding verify_recovery_code
  recovery-Ends token req u path w given = elim (Bool-cases (env.fails codes_query)) [
    | inl broken ↦ rw (broken, verify_recovery_code) tt
    | inr read ↦
        elim (Option-cases (
          matched_code lib.verify_password req.recovery_code
            (list_unused u.id w.db.recovery_codes))) [
              | inl missing ↦ rw (read, verify_recovery_code, missing) tt
              | inr (id, there) ↦
                  let h =
                    Ends-weaken (λ _ _. ⊥)
                      (Signed token u path (logged u w.db.core.users)
                        (RecoveryCodes.mark_used env.sql_now id w.db.recovery_codes).0 w.kv)
                      (Verified token req u path w) _
                      (by_recovery_code token req u path id w given there)
                      (sign_in_by_recovery_code-Ends token u path id w) in
                  let is : verify_recovery_code K H lib config env body token u path
                        req.recovery_code w
                      ≡ sign_in_by_recovery_code K H lib config env body token u path id w =
                    rw (read, verify_recovery_code, there) refl in
                  rw is h
            ]
  ]

  pub verify_code-Ends :
      (token : String) (remaining : ℕ) (req : ChallengeRequest) (u : User) (path : String)
      (w : World K)
      → Ends
          (λ _ _. ⊥)
          (Verified token req u path w)
          (verify_code K H lib config env body token remaining req (u, path) w)
  unfolding verify_code
  verify_code-Ends token remaining req u path w = elim (Bool-cases (req.recovery_code == "")) [
    | inl empty ↦
        let is : verify_code K H lib config env body token remaining req (u, path) w
            ≡ go_on (check_totp K H lib config env body token remaining u req.code w)
                (sign_in_by_totp K H lib config env body token u path) =
          rw (empty, verify_code) refl in
        rw is (totp-Ends token remaining req u path w ((eq_iff req.recovery_code "").0 empty))
    | inr given ↦
        let is : verify_code K H lib config env body token remaining req (u, path) w
            ≡ verify_recovery_code K H lib config env body token u path req.recovery_code w =
          rw (given, verify_code) refl in
        rw is
          (recovery-Ends token req u path w (λ e. let it = (eq_iff req.recovery_code "").1 e in cc))
  ]

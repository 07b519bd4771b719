-- ===== src/Auth/Challenge/Attempts.antt =====
-- What each phase of a challenge takes of the attempts.
use schlass.Base.{
  ℕ, ℤ, pos, negsuc, ◌+◌, ◌≤◌, ◌≡◌, refl, inl, inr, Option, none, some, [], ◌∷◌, String, ◌==◌,
  Outcome, Ends, Ends-go_on, go_on, arith, Bool-cases, Option-cases,
}
use schlass.Store.Tables.{User}
use schlass.Valkey.Keys.{challenge_key}
use schlass.Valkey.Server.{Valkey, del}
use schlass.Valkey.Hashes.{Hashes}
use schlass.Auth.RecoveryCodes.{list_unused}
use schlass.Auth.Env.{codes_query, Lib, Config, Env, Reply, World}
use schlass.Auth.Challenge.{
  ChallengeRequest, matched_code, attempt, count_attempt, load_challenge, refuse_code, check_totp,
  sign_in_by_totp, sign_in_by_recovery_code, verify_recovery_code, verify_code,
}
use schlass.Auth.Challenge.Budget.{
  budget, budget-pipe, budget-create, here, hincr_low, hincr_cost, cost, audit-kv,
}

module _ (K : Valkey) (H : Hashes K) (token : String) (lib : Lib) (config : Config) (env : Env)
    (body : Option ChallengeRequest) where
  abbrev pub left_of : World K → ℕ
  left_of w = budget K H token w.kv

  attempt-Ends :
      (t : String) (w : World K) (made : K.State × Option ℤ) (b : ℕ)
      → budget K H token made.0 ≤ b
      → ((n : ℕ) → made.1 ≡ some (pos n) → here K H token t + budget K H token made.0 ≤ b)
      → Ends
          (λ _ s. here K H token t + left_of s ≤ b)
          (λ r s. cost K H token t r + left_of s ≤ b)
          (attempt K H lib config env body t w made)
  attempt-Ends t w (s, none) b low paid = ground arith
  attempt-Ends t w (s, some (pos n)) b low paid = paid n refl
  attempt-Ends t w (s, some (negsuc n)) b low paid =
      rw (audit-kv K H token lib config env body)
        (ground (arith, budget-pipe K H token (del (challenge_key t) ∷ []) s))

  pub count_attempt-Ends :
      (t : String) (w : World K)
      → Ends
          (λ _ s. here K H token t + left_of s ≤ left_of w)
          (λ r s. cost K H token t r + left_of s ≤ left_of w)
          (count_attempt K H lib config env body t w)
  unfolding count_attempt
  count_attempt-Ends t w =
      attempt-Ends t w (H.hincr (challenge_key t) "attempts_remaining" (negsuc 0) w.kv) (left_of w)
        (hincr_low K H token t w.kv) (hincr_cost K H token t w.kv)

  -- The rest of the request takes nothing back: it keeps any bound.
  abbrev pub Keeps : {A : Type 0} → ℕ → World K × Outcome Reply A → Type 0
  Keeps b = Ends (λ _ s. left_of s ≤ b) (λ _ s. left_of s ≤ b)

  pub load_challenge-Keeps :
      (t : String) (b : ℕ) (w : World K)
      → left_of w ≤ b
      → Keeps b (load_challenge K H lib config env body t w)
  unfolding load_challenge
  load_challenge-Keeps t b w h = ground arith

  refuse_code-Keeps :
      (A : Type 0) (t : String) (remaining b : ℕ) (u : User) (w : World K)
      → left_of w ≤ b
      → Keeps b (refuse_code K H lib config env body {A = A} t remaining u w)
  unfolding refuse_code
  refuse_code-Keeps A t remaining b u w h =
      rw (audit-kv K H token lib config env body)
        (ground (arith, budget-pipe K H token (del (challenge_key t) ∷ []) w.kv))

  check_totp-Keeps :
      (t : String) (remaining b : ℕ) (u : User) (code : String) (w : World K)
      → left_of w ≤ b
      → Keeps b (check_totp K H lib config env body t remaining u code w)
  unfolding check_totp
  check_totp-Keeps t remaining b u code w h =
      ground (arith, refuse_code-Keeps ℕ t remaining b u w h)

  sign_in_by_totp-Keeps :
      (t : String) (b : ℕ) (u : User) (path : String) (step : ℕ) (w : World K)
      → left_of w ≤ b
      → Keeps b (sign_in_by_totp K H lib config env body t u path step w)
  unfolding sign_in_by_totp
  sign_in_by_totp-Keeps t b u path step w h = ground (
    arith,
    budget-pipe K H token (del (challenge_key t) ∷ []) w.kv,
    budget-create K H token config.session_ttl env.session_now env.fresh u.id env.ip env.user_agent
        (K.pipe (del (challenge_key t) ∷ []) w.kv).0,
  )

  sign_in_by_recovery_code-Keeps :
      (t : String) (b : ℕ) (u : User) (path code_id : String) (w : World K)
      → left_of w ≤ b
      → Keeps b (sign_in_by_recovery_code K H lib config env body t u path code_id w)
  unfolding sign_in_by_recovery_code
  sign_in_by_recovery_code-Keeps t b u path code_id w h = ground (
    arith,
    budget-pipe K H token (del (challenge_key t) ∷ []) w.kv,
    budget-create K H token config.session_ttl env.session_now env.fresh u.id env.ip env.user_agent
        (K.pipe (del (challenge_key t) ∷ []) w.kv).0,
  )

  verify_recovery_code-Keeps :
      (t : String) (b : ℕ) (u : User) (path plaintext : String) (w : World K)
      → left_of w ≤ b
      → Keeps b (verify_recovery_code K H lib config env body t u path plaintext w)
  unfolding verify_recovery_code
  verify_recovery_code-Keeps t b u path plaintext w h = elim (Bool-cases (env.fails codes_query)) [
    | inl broken ↦ rw (broken, verify_recovery_code) h
    | inr read ↦
        elim (Option-cases
          (matched_code lib.verify_password plaintext (list_unused u.id w.db.recovery_codes))) [
            | inl missing ↦
                rw (read, verify_recovery_code, missing, audit-kv K H token lib config env body) h
            | inr (id, there) ↦
                rw (read, verify_recovery_code, there)
                  (sign_in_by_recovery_code-Keeps t b u path id w h)
          ]
  ]

  by_totp-Keeps :
      (t : String) (remaining b : ℕ) (u : User) (path code : String) (w : World K)
      → left_of w ≤ b
      → Keeps b (
          go_on
            (check_totp K H lib config env body t remaining u code w)
            (sign_in_by_totp K H lib config env body t u path))
  by_totp-Keeps t remaining b u path code w h =
      Ends-go_on (λ _ s. left_of s ≤ b) (λ _ s. left_of s ≤ b) (λ _ s. left_of s ≤ b) _ _
        (check_totp-Keeps t remaining b u code w h)
        λ step s h'. sign_in_by_totp-Keeps t b u path step s h'

  pub verify_code-Keeps :
      (t : String) (remaining b : ℕ) (req : ChallengeRequest) (u : User) (path : String)
      (w : World K)
      → left_of w ≤ b
      → Keeps b (verify_code K H lib config env body t remaining req (u, path) w)
  unfolding verify_code
  verify_code-Keeps t remaining b req u path w h = elim (Bool-cases (req.recovery_code == "")) [
    | inl by_code ↦ rw (by_code, verify_code) (by_totp-Keeps t remaining b u path req.code w h)
    | inr by_recovery ↦
        rw (by_recovery, verify_code) (verify_recovery_code-Keeps t b u path req.recovery_code w h)
  ]

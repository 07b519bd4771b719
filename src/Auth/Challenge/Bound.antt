-- ===== src/Auth/Challenge/Bound.antt =====
-- How often a challenge may be tried, over any sequence of requests.
use schlass.Base.{
  ℕ, ℤ, pos, pos_part, or_zero, ◌+◌, ◌≤◌, ◌≡◌, ap, ◌∙◌, inl, inr, true, Option, none, some, List,
  [], ◌∷◌, String, Outcome, next, reply, Ends, Ends-go_on, Ends-map, go_on, arith, Option-cases,
}
use schlass.Valkey.Keys.{challenge_key}
use schlass.Valkey.Server.{Valkey, expire}
use text.Mathlib.TextPositions.{eq_refl}
use schlass.Valkey.Hashes.{Hashes, txt, num, put_numbers}
use schlass.Auth.Env.{Lib, Config, Env, Reply, totp_required, World}
use schlass.Auth.Challenge.{
  ChallengeRequest, cookie_value, count_attempt, load_challenge, verify_code, post_challenge,
}
use schlass.Auth.Challenge.Budget.{tries-le, budget, budget-pipe, here, cost}
use schlass.Auth.Challenge.Attempts.{
  Keeps, count_attempt-Ends, load_challenge-Keeps, verify_code-Keeps,
}
use schlass.Auth.Login.{LoginRequest, path_field, post_login}
use schlass.Auth.Login.Branches.{challenge_written}
use schlass.Auth.Login.Guarantee.{path_for, post_login-IsChallenged}

module _ (K : Valkey) (H : Hashes K) (token : String) (lib : Lib) (config : Config) where
  -- What the request may take from the challenge, by its cookie.
  abbrev charged : Option String → Reply → ℕ
  charged none r = 0
  charged (some t) r = cost K H token t r

  cost-le : (t : String) (r : Reply) → cost K H token t r ≤ here K H token t
  cost-le t r = ground (arith, tries-le r)

  abbrev verify_loaded :
      Env
      → Option ChallengeRequest
      → String
      → ChallengeRequest
      → ℕ
      → World K
      → World K × Outcome Reply ⊥
  verify_loaded env body t req remaining s =
      go_on (load_challenge K H lib config env body t s)
        (verify_code K H lib config env body t remaining req)

  verify_loaded-Keeps :
      (env : Env) (body : Option ChallengeRequest) (t : String) (req : ChallengeRequest)
      (remaining : ℕ) (s : World K)
      → Keeps K H token lib config env body
          (budget K H token s.kv)
          (verify_loaded env body t req remaining s)
  verify_loaded-Keeps env body t req remaining s =
      Ends-go_on (λ _ s'. budget K H token s'.kv ≤ budget K H token s.kv)
        (λ _ s'. budget K H token s'.kv ≤ budget K H token s.kv)
        (λ _ s'. budget K H token s'.kv ≤ budget K H token s.kv) _ _
        (load_challenge-Keeps K H token lib config env body t (budget K H token s.kv) s
          (omega arith))
        λ (u, path) s' h.
          verify_code-Keeps K H token lib config env body t remaining (budget K H token s.kv) req u
            path s' h

  -- From the count on: the code that is checked has been paid for.
  checked-Ends :
      (env : Env) (body : Option ChallengeRequest) (t : String) (req : ChallengeRequest)
      (w : World K)
      → Ends {A = ⊥}
          (λ _ _. ⊥)
          (λ r s. cost K H token t r + budget K H token s.kv ≤ budget K H token w.kv)
          (go_on (count_attempt K H lib config env body t w) (verify_loaded env body t req))
  checked-Ends env body t req w =
      Ends-go_on (λ _ s. here K H token t + budget K H token s.kv ≤ budget K H token w.kv)
        (λ _ _. ⊥) (λ r s. cost K H token t r + budget K H token s.kv ≤ budget K H token w.kv) _
        (verify_loaded env body t req) (count_attempt-Ends K H token lib config env body t w)
        λ remaining s paid.
          Ends-map (λ _ s'. budget K H token s'.kv ≤ budget K H token s.kv) (λ _ _. ⊥)
            (λ _ s'. budget K H token s'.kv ≤ budget K H token s.kv)
            (λ r s'. cost K H token t r + budget K H token s'.kv ≤ budget K H token w.kv)
            (verify_loaded env body t req remaining s) (λ never s' h. absurd never)
            (λ r s' h. omega (arith, cost-le t r)) (verify_loaded-Keeps env body t req remaining s)

  -- What is left after a request, and what the request took.
  post_challenge-Ends :
      (env : Env) (body : Option ChallengeRequest) (w : World K)
      → Ends {A = ⊥}
          (λ _ _. ⊥)
          (λ r s.
            charged (cookie_value env.challenge_cookie) r + budget K H token s.kv
            ≤ budget K H token w.kv)
          (post_challenge K H lib config env body w)
  unfolding post_challenge
  post_challenge-Ends env body w = elim (Option-cases (cookie_value env.challenge_cookie)) [
    | inl missing ↦ rw (missing, post_challenge) (omega arith)
    | inr (t, there) ↦ elim (Option-cases body) [
      | inl malformed ↦ rw (there, malformed, post_challenge) (ground arith)
      | inr (req, read) ↦ rw (there, read, post_challenge) (checked-Ends env (some req) t req w)
    ]
  ]

  -- The codes that are checked for the challenge in a sequence of requests, each with the state that the
  -- one before it left.
  abbrev pub answered : World K × Outcome Reply ⊥ → Reply
  answered (s, next a) = absurd a
  answered (s, reply r) = r

  pub checked : List (Env × Option ChallengeRequest) → World K → ℕ
  checked [] w = 0
  checked ((env, body) ∷ rest) w =
      charged (cookie_value env.challenge_cookie)
        (answered (post_challenge K H lib config env body w))
      + checked rest (post_challenge K H lib config env body w).0

  one_request :
      (cookie : Option String) (m : World K × Outcome Reply ⊥) (b : ℕ)
      → Ends (λ _ _. ⊥) (λ r s. charged cookie r + budget K H token s.kv ≤ b) m
      → charged cookie (answered m) + budget K H token m.0.kv ≤ b
  one_request cookie (s, next a) b h = elim h [ ]
  one_request cookie (s, reply r) b h = h

  -- However many requests are served, no more codes are checked for a challenge than its counter allows.
  checked-le :
      (requests : List (Env × Option ChallengeRequest)) (w : World K)
      → checked requests w ≤ budget K H token w.kv
  unfolding checked
  checked-le [] w = omega arith
  checked-le ((env, body) ∷ rest) w =
      let first =
        one_request (cookie_value env.challenge_cookie) (post_challenge K H lib config env body w)
          (budget K H token w.kv) (post_challenge-Ends env body w) in
      omega (arith, first, checked-le rest (post_challenge K H lib config env body w).0)

  five_numbers :
      (path user_id : String) (old : Option ℤ)
      → put_numbers
          (("user_id", txt user_id) ∷ ("attempts_remaining", num (pos 5)) ∷ path_field path)
          "attempts_remaining"
          old
        ≡ some (pos 5)
  five_numbers path user_id old = ground arith

  five_written :
      (user_id path : String) (s : K.State)
      → (H.hset
          (challenge_key token)
          (("user_id", txt user_id) ∷ ("attempts_remaining", num (pos 5)) ∷ path_field path)
          s).1
        ≡ true
      → budget K H token
          (H.hset
            (challenge_key token)
            (("user_id", txt user_id) ∷ ("attempts_remaining", num (pos 5)) ∷ path_field path)
            s).0
        ≡ 5
  five_written user_id path s done =
      ap (λ o. pos_part (or_zero o)) {y = some (pos 5)}
        (H.hset_number (challenge_key token) _ s done (challenge_key token) "attempts_remaining"
          ∙ rw (eq_refl token)
              (five_numbers path user_id (H.number (challenge_key token) "attempts_remaining" s)))

  -- The codes that are checked for one challenge that a login gave out, of whatever requests follow, are at most five: each
  -- of them is the code of a request whose reply says that a code was wrong, or of the one that signs in.
  pub five_attempts :
      (env : Env) (body : Option LoginRequest) (w s : World K)
      (requests : List (Env × Option ChallengeRequest))
      → post_login K H lib config env body w ≡ (s, reply (totp_required token))
      → checked requests s ≤ 5
  five_attempts env body w s requests e =
      let (req, u, authentic, it) = post_login-IsChallenged K H lib config env body w s token e in
      let path = path_for K H lib config env body w req in
      let written = it.5 in
      let state = it.6 in
      let made = challenge_written K H lib config env body w u path token in
      let five = five_written u.id path w.kv written in
      let later = budget-pipe K H token (expire (challenge_key token) 120 ∷ []) made.0 in
      let bound = checked-le requests s in
      let there : budget K H token s.kv
          ≡ budget K H token (K.pipe (expire (challenge_key token) 120 ∷ []) made.0).0 =
        ap (budget K H token) state in
      omega arith

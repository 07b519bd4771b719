-- ===== src/Auth/Challenge/Budget.antt =====
-- The attempts that a challenge allows, as the counter in Valkey has them.
use schlass.Base.{
  ℕ, suc, ℤ, pos, negsuc, pos_part, or_zero, ◌+ℤ◌, ◌+◌, ◌≤◌, ◌≡◌, ◌⊎◌, refl, ap, ◌∙◌, inl, inr,
  Bool, true, false, ◌||◌, Option, none, some, List, String, ◌==◌, if◌then◌else◌, arith, eq_iff,
  Bool-cases, Option-cases,
}
use schlass.Valkey.Keys.{challenge_key}
use schlass.Valkey.Server.{Valkey, Command}
use schlass.Valkey.Hashes.{Hashes}
use schlass.Session.Store.{on_exec, create, create_with_pending_return_to}
use schlass.Auth.Env.{Lib, Config, Env, Reply, failure, signed_in, World}
use schlass.Auth.Challenge.{ChallengeRequest, write_challenge_failed_audit}

-- Whether the reply tells of a code that was checked.
abbrev pub tries : Reply → ℕ
tries (failure status code message) =
    if code == "MFA_INVALID_CODE" || code == "MFA_INVALID_RECOVERY_CODE" then 1 else 0
tries (signed_in session user path) = 1
tries _ = 0

pub tries-le : (r : Reply) → tries r ≤ 1
tries-le (failure status code message) = ground arith
tries-le (signed_in session user path) = omega arith
tries-le _ = omega arith

on_exec-state : {A S : Type 0} (r : S × Bool) (a : A) → (on_exec r a).0 ≡ r.0
on_exec-state (s, true) a = refl
on_exec-state (s, false) a = refl

module _ (K : Valkey) (H : Hashes K) (token : String) where
  abbrev left : K.State → Option ℤ
  left s = H.number (challenge_key token) "attempts_remaining" s

  abbrev counted : K.State → K.State × Option ℤ
  counted s = H.hincr (challenge_key token) "attempts_remaining" (negsuc 0) s

  -- How many attempts the challenge still allows: none where it is gone.
  abbrev pub budget : K.State → ℕ
  budget s = pos_part (or_zero (H.number (challenge_key token) "attempts_remaining" s))

  budget_same_or_gone :
      (old new : Option ℤ)
      → (new ≡ old) ⊎ (new ≡ none)
      → pos_part (or_zero new) ≤ pos_part (or_zero old)
  budget_same_or_gone old new (inl e) = rw e (omega arith)
  budget_same_or_gone old new (inr e) = rw e (omega arith)

  -- No pipeline gives attempts.
  pub budget-pipe : (cs : List Command) (s : K.State) → budget (K.pipe cs s).0 ≤ budget s
  budget-pipe cs s =
      budget_same_or_gone _ _ (H.pipe_number cs (challenge_key token) "attempts_remaining" s)

  pub budget-create :
      (ttl now : ℕ) (fresh : Option String) (user_id ip agent : String) (s : K.State)
      → budget (create K ttl now fresh user_id ip agent s).0 ≤ budget s
  unfolding create create_with_pending_return_to
  budget-create ttl now none user_id ip agent s = omega arith
  budget-create ttl now (some t) user_id ip agent s = rw on_exec-state (budget-pipe _ s)

  -- An attempt that goes on has cost one.
  spent :
      (old new : Option ℤ) (n : ℕ)
      → (pos n ≡ or_zero old +ℤ negsuc 0) × (new ≡ some (pos n))
      → suc (pos_part (or_zero new)) ≤ pos_part (or_zero old)
  spent none new n (e, is) = absurd (ground arith)
  spent (some m) new n (e, is) = ground arith

  -- Any attempt, also one whose answer was lost, costs one or nothing.
  attempt_lost :
      (old new : Option ℤ)
      → (new ≡ old) ⊎ (new ≡ some (or_zero old +ℤ negsuc 0))
      → pos_part (or_zero new) ≤ pos_part (or_zero old)
  attempt_lost old new (inl e) = rw e (omega arith)
  attempt_lost none new (inr e) = rw e (ground arith)
  attempt_lost (some n) new (inr e) = rw e (ground arith)

  attempt_counted :
      (old new : Option ℤ) (n : ℤ)
      → (n ≡ or_zero old +ℤ negsuc 0) × (new ≡ some n)
      → pos_part (or_zero new) ≤ pos_part (or_zero old)
  attempt_counted old new n (e, is) = attempt_lost old new (inr (is ∙ ap some e))

  -- What one request for the challenge `t` may take from this challenge.
  abbrev pub here : String → ℕ
  here t = if t == token then 1 else 0

  pub hincr_low :
      (t : String) (s : K.State)
      → budget (H.hincr (challenge_key t) "attempts_remaining" (negsuc 0) s).0 ≤ budget s
  hincr_low t s = elim (Bool-cases (t == token)) [
    | inl mine ↦
        let same : t ≡ token = (eq_iff t token).0 mine in
        elim (Option-cases (H.hincr (challenge_key t) "attempts_remaining" (negsuc 0) s).1) [
          | inl lost ↦ rw same (
              attempt_lost (left s) (left (counted s).0) (
                H.hincr_none (challenge_key token) "attempts_remaining" (negsuc 0) s
                  (rw same at lost)))
          | inr (n, told) ↦ rw same (
              attempt_counted (left s) (left (counted s).0) n (
                H.hincr_some (challenge_key token) "attempts_remaining" (negsuc 0) s n
                  (rw same at told)))
        ]
    | inr other ↦
        rw
          (H.hincr_other (challenge_key t) "attempts_remaining" (negsuc 0) s (challenge_key token)
            "attempts_remaining" (rw other refl))
          (omega arith)
  ]

  pub hincr_cost :
      (t : String) (s : K.State) (n : ℕ)
      → (H.hincr (challenge_key t) "attempts_remaining" (negsuc 0) s).1 ≡ some (pos n)
      → here t + budget (H.hincr (challenge_key t) "attempts_remaining" (negsuc 0) s).0 ≤ budget s
  hincr_cost t s n e = elim (Bool-cases (t == token)) [
    | inl mine ↦
        let same : t ≡ token = (eq_iff t token).0 mine in
        let cost = spent (left s) (left (counted s).0) n (
          H.hincr_some (challenge_key token) "attempts_remaining" (negsuc 0) s (pos n)
            (rw same at e)) in
        rw (mine, same) (omega (arith, cost))
    | inr other ↦ rw other (omega (arith, hincr_low t s))
  ]

  -- What a request for `t` may cost by its reply, and what is left after it.
  abbrev pub cost : String → Reply → ℕ
  cost t r = if t == token then tries r else 0

  pub audit-kv :
      (lib : Lib) (config : Config) (env : Env) (body : Option ChallengeRequest) (id : String)
      (w : World K)
      → (write_challenge_failed_audit K H lib config env body id w).kv ≡ w.kv
  unfolding write_challenge_failed_audit
  audit-kv lib config env body id w = ground arith

-- ===== src/Session/RevokeBefore.antt =====
-- internal/session/revokebefore.go: a cutoff for each user and each client, in whole seconds.
use text.Mathlib.TextPositions.{eq_refl}
use schlass.Base.{
  ℕ, ◌+◌, ◌*◌, ◌/◌, ◌<◌, ◌≤◌, ◌≡◌, refl, ◌∙◌, ◌⊎◌, ◌↔◌, inl, inr, Bool, true, some, [], ◌∷◌, String,
  Result, ok, err, arith,
}
use schlass.Valkey.Keys.{Value, cutoff_secs, Key, user_revoke_key, client_revoke_key}
use schlass.Valkey.Server.{Valkey, Reply, found, missing, failed, set}
use schlass.Oidc.Claims.{second, unix}

pub data CutoffError : Type 0 where
  not_set cutoff_failed : CutoffError

abbrev pub revoke_before_ttl : ℕ
revoke_before_ttl = 30 * 24 * 3600

-- strconv.ParseInt of the stored text.
abbrev pub cutoff_of : Reply Value → Result CutoffError ℕ
cutoff_of missing = err not_set
cutoff_of (found (cutoff_secs n)) = ok n
cutoff_of _ = err cutoff_failed

-- time.Now().UTC().Truncate(time.Second).Add(time.Second)
abbrev pub next_second : ℕ → ℕ
next_second now = now / second * second + second

module _ (K : Valkey) where
  open K use {State, get, pipe}

  unfoldable pub revoke_before_set : (user_id : String) → (at : ℕ) → State → State × Bool
  revoke_before_set user_id at s =
      pipe (set (user_revoke_key user_id) (cutoff_secs (unix at)) revoke_before_ttl ∷ []) s

  unfoldable pub revoke_before_set_now : (user_id : String) → (now : ℕ) → State → State × Bool
  unfolding revoke_before_set
  revoke_before_set_now user_id now s = revoke_before_set user_id (next_second now) s

  -- The time that RevokeBeforeGet returns, as the seconds that its callers compare.
  unfoldable pub revoke_before_get : (user_id : String) → State → Result CutoffError ℕ
  revoke_before_get user_id s = cutoff_of (get (user_revoke_key user_id) s)

  unfoldable pub revoke_before_client_set : (client_id : String) → (at : ℕ) → State → State × Bool
  revoke_before_client_set client_id at s =
      pipe (set (client_revoke_key client_id) (cutoff_secs (unix at)) revoke_before_ttl ∷ []) s

  unfoldable pub revoke_before_client_set_now :
      (client_id : String) → (now : ℕ) → State → State × Bool
  unfolding revoke_before_client_set
  revoke_before_client_set_now client_id now s =
      revoke_before_client_set client_id (next_second now) s

  unfoldable pub revoke_before_client_get : (client_id : String) → State → Result CutoffError ℕ
  revoke_before_client_get client_id s = cutoff_of (get (client_revoke_key client_id) s)

  -- The cutoff is the second after the one of the mutation.
  unix-next_second : (now : ℕ) → unix (next_second now) ≡ unix now + 1
  unix-next_second now = omega arith

  cutoff_read :
      (k : Key) (n : ℕ) (s : State) (r : Reply Value)
      → get k s ≡ r
      → K.holds k s ≡ some (cutoff_secs n)
      → (cutoff_of r ≡ ok n) ⊎ (cutoff_of r ≡ err cutoff_failed)
  cutoff_read k n s missing e held = let gone = K.get_missing k s e in cc
  cutoff_read k n s failed e held = inr refl
  cutoff_read k n s (found v) e held =
      let is : v ≡ cutoff_secs n = let it = K.get_found k s v e in cc in rw is (inl refl)

  -- After a user's tokens are revoked at the time `now` without an error, a read of the cutoff that does not
  -- fail gives a cutoff `c`, and a token that was issued at the time `t` lies before it exactly when `t`
  -- falls in the second of `now` or an earlier one.
  pub revoke_before_get-set_now :
      (user_id : String) (now : ℕ) (s : State)
      → (revoke_before_set_now user_id now s).1 ≡ true
      → (revoke_before_get user_id (revoke_before_set_now user_id now s).0 ≡ err cutoff_failed)
        ⊎ ((c : ℕ) × (revoke_before_get user_id (revoke_before_set_now user_id now s).0 ≡ ok c)
            × ((t : ℕ) → (unix t < c) ↔ (unix t ≤ unix now)))
  unfolding revoke_before_set_now revoke_before_get
  revoke_before_get-set_now user_id now s done =
      let k = user_revoke_key user_id in
      let cs = set k (cutoff_secs (unix (next_second now))) revoke_before_ttl ∷ [] in
      let held : K.holds k (K.pipe cs s).0 ≡ some (cutoff_secs (unix (next_second now))) =
        K.pipe_holds cs k s done ∙ rw (eq_refl user_id) in
      elim (cutoff_read k (unix (next_second now)) (K.pipe cs s).0 (get k (K.pipe cs s).0) refl
        held) [
          | inl it ↦ inr (unix (next_second now), it, λ t. (λ h. omega arith, λ h. omega arith))
          | inr broken ↦ inl broken
        ]

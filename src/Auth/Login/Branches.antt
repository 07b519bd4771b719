-- ===== src/Auth/Login/Branches.antt =====
-- How the branches of the login end, once the password was right.
use schlass.Base.{
  pos, [], ◌∷◌, ◌≡◌, ◌≢◌, refl, ◌⊎◌, inl, inr, Bool, true, false, Option, none, some, List, String,
  Result, ok, Ends, Ends-go_on, Ends-weaken, go_on, arith,
}
use schlass.Store.Tables.{User}
use schlass.Valkey.Server.{Valkey, expire}
use schlass.Valkey.Hashes.{Hashes, txt, num}
use schlass.Valkey.Keys.{challenge_key}
use schlass.Session.Store.{SessionError, create, create_with_pending_return_to}
use schlass.Users.Store.{set_last_login_at}
use schlass.Users.Lockout.{reset_failed_logins}
use schlass.Auth.Env.{
  Lib, Config, Env, Reply, signed_in, enrollment_required, totp_required, user_dto, World,
}
use schlass.Auth.Steps.{internal_error, Step, with_session-Ends}
use schlass.Auth.Login.{
  LoginRequest, path_field, record_login, sign_in_forced, sign_in, require_enrollment, require_totp,
}
use schlass.Auth.Login.Conditions.{IsReset}

module _ (K : Valkey) (H : Hashes K) (lib : Lib) (config : Config) (env : Env)
    (body : Option LoginRequest) (w : World K) where
  -- The users when the counter was reset, and when the login was recorded.
  abbrev pub reset_users : User → List User
  reset_users u = (reset_failed_logins env.sql_now u.id w.db.core.users).0

  abbrev pub logged_in_users : User → List User
  logged_in_users u = (set_last_login_at false env.sql_now u.id (reset_users u)).0

  record_login-Ends :
      (u : User) (s : World K)
      → IsReset K H lib config env body w u s
      → Ends
          (λ _ s'. (s'.kv ≡ w.kv) × (s'.db.core.users ≡ logged_in_users u))
          (λ r _. r ≡ internal_error)
          (record_login K H lib config env body u s)
  unfolding record_login set_last_login_at
  record_login-Ends u s (kv, users, settings) = ground arith

  -- The session that is started, with the path that it keeps for later.
  abbrev pub session_for : User → String → K.State × Result SessionError String
  session_for u path =
      create_with_pending_return_to K config.session_ttl env.session_now env.fresh u.id env.ip
        env.user_agent path w.kv

  -- The challenge that is written.
  abbrev pub challenge_written : User → String → String → K.State × Bool
  challenge_written u path token =
      H.hset (challenge_key token)
        (("user_id", txt u.id) ∷ ("attempts_remaining", num (pos 5)) ∷ path_field path) w.kv

  -- What the branch of a user whose password was right ends in, for the path to return to.
  abbrev pub Branch : User → String → Reply → World K → Type 0
  Branch u path (signed_in token dto to) s =
      (s.db.core.users ≡ logged_in_users u)
      × (dto ≡ user_dto u)
      × (((u.force_password_change ≡ true) × (to ≡ "") × (session_for u path ≡ (s.kv, ok token)))
          ⊎ ((u.force_password_change ≡ false)
              × (w.db.settings.mfa_required ≡ false)
              × (to ≡ path)
              × (session_for u "" ≡ (s.kv, ok token))))
  Branch u path (enrollment_required token) s =
      (s.db.core.users ≡ reset_users u)
      × (u.force_password_change ≡ false)
      × (w.db.settings.mfa_required ≡ true)
      × (u.totp_enrolled_at ≡ none)
      × (env.fresh_token ≡ some token)
  Branch u path (totp_required token) s =
      (s.db.core.users ≡ reset_users u)
      × (u.force_password_change ≡ false)
      × (w.db.settings.mfa_required ≡ true)
      × (u.totp_enrolled_at ≢ none)
      × (env.fresh_token ≡ some token)
      × ((challenge_written u path token).1 ≡ true)
      × (s.kv
          ≡ (K.pipe (expire (challenge_key token) 120 ∷ []) (challenge_written u path token).0).0)
  Branch u path r s = r ≡ internal_error

  after_login :
      (u : User) (s : World K) (path : String)
      → IsReset K H lib config env body w u s
      → (f : Unit {0} → Step K env ⊥)
      → ((s' : World K)
          → s'.kv ≡ w.kv
          → s'.db.core.users ≡ logged_in_users u
          → Ends (λ _ _. ⊥) (Branch u path) (f tt s'))
      → Ends (λ _ _. ⊥) (Branch u path) (go_on (record_login K H lib config env body u s) f)
  after_login u s path reset f rest =
      Ends-go_on (λ _ s'. (s'.kv ≡ w.kv) × (s'.db.core.users ≡ logged_in_users u)) (λ _ _. ⊥)
        (Branch u path) _ f
        (Ends-weaken (λ _ s'. (s'.kv ≡ w.kv) × (s'.db.core.users ≡ logged_in_users u))
          (λ r _. r ≡ internal_error) (Branch u path) _ (λ r s' is. rw is refl)
          (record_login-Ends u s reset))
        λ done s' (kv, users). rest s' kv users

  pub sign_in_forced-Ends :
      (u : User) (path : String) (s : World K)
      → u.force_password_change ≡ true
      → IsReset K H lib config env body w u s
      → Ends {A = ⊥} (λ _ _. ⊥) (Branch u path) (sign_in_forced K H lib config env body u path s)
  unfolding sign_in_forced
  sign_in_forced-Ends u path s forced reset = after_login u s path reset _ λ s' kv users.
      with_session-Ends K env (λ token. signed_in token (user_dto u) "") s' _ (Branch u path)
        (λ st token made. (users, refl, inl (forced, refl, rw kv at made))) (λ st. refl)

  pub sign_in-Ends :
      (u : User) (path : String) (s : World K)
      → u.force_password_change ≡ false
      → w.db.settings.mfa_required ≡ false
      → IsReset K H lib config env body w u s
      → Ends {A = ⊥} (λ _ _. ⊥) (Branch u path) (sign_in K H lib config env body u path s)
  unfolding sign_in create
  sign_in-Ends u path s free single reset = after_login u s path reset _ λ s' kv users.
      with_session-Ends K env (λ token. signed_in token (user_dto u) path) s' _ (Branch u path)
        (λ st token made. (users, refl, inr (free, single, refl, rw kv at made))) (λ st. refl)

  pub require_enrollment-Ends :
      (u : User) (path : String) (s : World K)
      → u.force_password_change ≡ false
      → IsReset K H lib config env body w u s
      → w.db.settings.mfa_required ≡ true
      → u.totp_enrolled_at ≡ none
      → Ends {A = ⊥}
          (λ _ _. ⊥)
          (Branch u path)
          (require_enrollment K H lib config env body u path s)
  unfolding require_enrollment
  require_enrollment-Ends u path s free (kv, users, settings) required enrolled = ground arith

  pub require_totp-Ends :
      (u : User) (path : String) (s : World K)
      → u.force_password_change ≡ false
      → IsReset K H lib config env body w u s
      → w.db.settings.mfa_required ≡ true
      → u.totp_enrolled_at ≢ none
      → Ends {A = ⊥} (λ _ _. ⊥) (Branch u path) (require_totp K H lib config env body u path s)
  unfolding require_totp
  require_totp-Ends u path s free (kv, users, settings) required enrolled = ground arith

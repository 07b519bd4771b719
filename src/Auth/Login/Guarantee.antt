-- ===== src/Auth/Login/Guarantee.antt =====
-- What the login guarantees, from the request to the reply.
use schlass.Base.{
  ℕ, ℤ, ◌≡◌, ◌≢◌, refl, sym, ap, ◌⊎◌, inl, inr, true, false, Option, none, some, String, ◌==◌,
  if◌then◌else◌, ok, reply, go_on, Outcome, Bool, Bool-cases, Ends, Ends-reply, Ends-go_on,
  Ends-weaken,
}
use schlass.Store.Tables.{User}
use schlass.Store.Sql.{find}
use schlass.Valkey.Server.{Valkey}
use schlass.Valkey.Hashes.{Hashes}
use schlass.Oidc.ReturnTo.{sanitize_return_to}
use schlass.Users.Store.{has_email}
use schlass.Users.Lockout.{is_locked}
use schlass.Auth.Env.{
  Lib, Config, Env, mfa_query, Reply, failure, account_locked, signed_in, totp_required, UserDto,
  World,
}
use schlass.Auth.Steps.{Step}
use schlass.Auth.Login.{
  LoginRequest, or_no_path, reset_counter, second_factor, by_password, branch, post_login,
}
use schlass.Auth.Login.Conditions.{
  IsAsked, IsOpen, IsReset, Refused, Unopened, check_request-Ends, find_user-Ends, check_lock-Ends,
  check_password-Ends, reset_counter-Ends,
}
use schlass.Auth.Login.Branches.{
  Branch, sign_in_forced-Ends, sign_in-Ends, require_enrollment-Ends, require_totp-Ends,
}

-- A refusal: an account that is locked, or a failure that is not an error of the server.
pub data IsRefusal : Reply → Type 0 where
  failed :
      (status : ℕ) (code message : String) → status ≢ 500 → IsRefusal (failure status code message)
  locked : (retry_after_seconds : ℤ) → IsRefusal (account_locked retry_after_seconds)

module _ (K : Valkey) (H : Hashes K) (lib : Lib) (config : Config) (env : Env)
    (body : Option LoginRequest) (w : World K) where
  -- The user is the one of the email, is not locked, and the password is right.
  pub record IsAuthentic (req : LoginRequest) (u : User) : Type 0 where
    pub asked : IsAsked K H lib config env body w req
    pub named : find (has_email (lib.to_lower req.email)) w.db.core.users ≡ some u
    pub unlocked : is_locked env.now u.locked_until ≡ false
    pub verified : lib.verify_password req.password u.password_hash ≡ ok true

  -- The path of the request, where it is one that may be returned to.
  abbrev pub path_for : LoginRequest → String
  path_for req = or_no_path (
      if req.return_to == ""
      then none
      else sanitize_return_to lib.parse_url req.return_to config.public_url)

  abbrev pub Final : Reply → World K → Type 0
  Final r s =
      Refused K H lib config env body w r s
      ⊎ ((req : LoginRequest) × (u : User) × IsAuthentic req u
          × Branch K H lib config env body w u (path_for req) r s)

  second_factor-Ends :
      (u : User) (path : String) (s : World K) (required : Bool) (enrolled_at : Option ℕ)
      → u.force_password_change ≡ false
      → w.db.settings.mfa_required ≡ required
      → u.totp_enrolled_at ≡ enrolled_at
      → IsReset K H lib config env body w u s
      → Ends {A = ⊥}
          (λ _ _. ⊥)
          (Branch K H lib config env body w u path)
          (second_factor K H lib config env body u path required enrolled_at s)
  second_factor-Ends u path s false enrolled_at free single at reset =
      sign_in-Ends K H lib config env body w u path s free single reset
  second_factor-Ends u path s true none free required at reset =
      require_enrollment-Ends K H lib config env body w u path s free reset required at
  second_factor-Ends u path s true (some t) free required at reset =
      require_totp-Ends K H lib config env body w u path s free reset required
        (λ (never : u.totp_enrolled_at ≡ none). cc)

  by_password-Ends :
      (u : User) (path : String) (s : World K) (forced : Bool)
      → u.force_password_change ≡ forced
      → IsReset K H lib config env body w u s
      → Ends {A = ⊥}
          (λ _ _. ⊥)
          (Branch K H lib config env body w u path)
          (by_password K H lib config env body u path forced s)
  unfolding by_password
  by_password-Ends u path s true is reset =
      sign_in_forced-Ends K H lib config env body w u path s is reset
  by_password-Ends u path s false is (kv, users, settings) =
      elim (Bool-cases (env.fails mfa_query)) [
        | inl broken ↦ rw (broken, by_password) refl
        | inr read ↦
            rw (read, by_password)
              (second_factor-Ends u path s s.view.settings.mfa_required u.totp_enrolled_at is
                (ap (λ t. t.mfa_required) (sym settings)) refl (kv, users, settings))
      ]

  branch-Ends :
      (u : User) (path : String) (s : World K)
      → IsReset K H lib config env body w u s
      → Ends {A = ⊥}
          (λ _ _. ⊥)
          (Branch K H lib config env body w u path)
          (branch K H lib config env body u path s)
  unfolding branch
  branch-Ends u path s reset = by_password-Ends u path s u.force_password_change refl reset

  -- The rule of sequence, where a phase that ends early has refused the request.
  and_then :
      {A : Type 0} (P : A → World K → Type 0) (m : World K × Outcome Reply A) (f : A → Step K env ⊥)
      → Ends P (Refused K H lib config env body w) m
      → ((a : A) (s : World K) → P a s → Ends (λ _ _. ⊥) Final (f a s))
      → Ends (λ _ _. ⊥) Final (go_on m f)
  and_then P m f h rest =
      Ends-go_on P (λ _ _. ⊥) Final m f
        (Ends-weaken P (Refused K H lib config env body w) Final m (λ r s it. inl it) h) rest

  authentic-Final :
      (req : LoginRequest) (u : User) (s : World K)
      → IsAuthentic req u
      → IsOpen K H lib config env body w s
      → Ends {A = ⊥}
          (λ _ _. ⊥)
          Final
          (go_on
            (reset_counter K H lib config env body u s)
            λ _. branch K H lib config env body u (path_for req))
  authentic-Final req u s authentic now_open =
      and_then {A = Unit {0}} (λ _ s'. IsReset K H lib config env body w u s') _ _
        (reset_counter-Ends K H lib config env body w u s now_open)
        λ _ s' reset.
          Ends-weaken (λ _ _. ⊥) (Branch K H lib config env body w u (path_for req)) Final _
            (λ r s'' h. inr (req, u, authentic, h)) (branch-Ends u (path_for req) s' reset)

  handle-Final : Ends (λ _ _. ⊥) Final (post_login K H lib config env body w)
  unfolding post_login
  handle-Final =
      and_then {A = LoginRequest} (λ req s. (s ≡ w) × IsAsked K H lib config env body w req) _ _
        (check_request-Ends K H lib config env body w)
        λ req s (same, asked).
          and_then {A = User}
            (λ u s'.
              IsOpen K H lib config env body w s'
              × (find (has_email (lib.to_lower req.email)) w.db.core.users ≡ some u))
            _ _ (find_user-Ends K H lib config env body w req s same)
            λ u s₁ (open₁, there).
              and_then {A = Unit {0}}
                (λ _ s'.
                  IsOpen K H lib config env body w s' × (is_locked env.now u.locked_until ≡ false))
                _ _ (check_lock-Ends K H lib config env body w u s₁ open₁)
                λ _ s₂ (open₂, unlocked).
                  and_then {A = Unit {0}}
                    (λ _ s'.
                      IsOpen K H lib config env body w s'
                      × (lib.verify_password req.password u.password_hash ≡ ok true))
                    _ _ (check_password-Ends K H lib config env body w req u s₂ asked.0 there open₂)
                    λ _ s₃ (open₃, right).
                      authentic-Final req u s₃
                        (record {
                          asked = asked;
                          named = there;
                          unlocked = unlocked;
                          verified = right;
                        })
                        open₃

  refused-Unopened :
      {r : Reply} (s : World K) → IsRefusal r → Final r s → Unopened K H lib config env body w s
  refused-Unopened s (failed status code message other) (inl (inl broken)) = absurd (other broken)
  refused-Unopened s (failed status code message other) (inl (inr unopened)) = unopened
  refused-Unopened s (failed status code message other) (inr (req, u, authentic, is)) =
      let broken : status ≡ 500 = cc in absurd (other broken)
  refused-Unopened s (locked n) (inl unopened) = unopened
  refused-Unopened s (locked n) (inr (req, u, authentic, is)) = cc

  -- A login that is refused, because the account is locked or with a failure that is no error of the server, opens nothing:
  -- Valkey is as it was, and so are the rows of the users, but for the failed attempt of a user whose password was wrong,
  -- which may have been counted.
  pub post_login-refused :
      (s : World K) (r : Reply)
      → IsRefusal r
      → post_login K H lib config env body w ≡ (s, reply r)
      → Unopened K H lib config env body w s
  post_login-refused s r refusal e =
      refused-Unopened s refusal (Ends-reply (λ _ _. ⊥) Final _ e handle-Final)

  -- A session is started only if: the request came from the server's own pages and is valid; the user of its email is not
  -- locked and the password is right; and either the password is a temporary one, or the setting mfa_required is off (also for a user who is enrolled). The
  -- session is the one that was created for this user, the failed attempts are forgotten and the login is recorded; with
  -- a temporary password the path is kept in the session, otherwise it is in the reply.
  pub post_login-IsSignedIn :
      (s : World K) (token : String) (dto : UserDto) (to : String)
      → post_login K H lib config env body w ≡ (s, reply (signed_in token dto to))
      → (req : LoginRequest) × (u : User) × IsAuthentic req u
        × Branch K H lib config env body w u (path_for req) (signed_in token dto to) s
  post_login-IsSignedIn s token dto to e = elim (Ends-reply (λ _ _. ⊥) Final _ e handle-Final) [
    | inl never ↦ elim never [ ]
    | inr it ↦ it
  ]

  -- A challenge for the second factor is given out only if: the request is valid; the user of its email is not locked and
  -- the password is right and not a temporary one; and a second factor is required, which the user has.
  pub post_login-IsChallenged :
      (s : World K) (token : String)
      → post_login K H lib config env body w ≡ (s, reply (totp_required token))
      → (req : LoginRequest) × (u : User) × IsAuthentic req u
        × Branch K H lib config env body w u (path_for req) (totp_required token) s
  post_login-IsChallenged s token e = elim (Ends-reply (λ _ _. ⊥) Final _ e handle-Final) [
    | inl never ↦ elim never [ ]
    | inr it ↦ it
  ]

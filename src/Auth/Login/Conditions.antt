-- ===== src/Auth/Login/Conditions.antt =====
-- How the phases of the login end.
use schlass.Base.{
  Result-cases, ◌≡◌, refl, ◌⊎◌, inl, inr, Bool, true, false, Option, none, some, List, Result, ok,
  Ends, Ends-map, arith, eq_iff,
}
use schlass.Store.Tables.{User}
use schlass.Store.Sql.{find}
use schlass.Valkey.Server.{Valkey}
use schlass.Valkey.Hashes.{Hashes}
use schlass.Users.Store.{has_email, get_by_email}
use schlass.Users.Lockout.{is_locked, increment_failed_logins, reset_failed_logins}
use schlass.Auth.Env.{Lib, Config, Env, Reply, failure, account_locked, World}
use schlass.Auth.Steps.{internal_error}
use schlass.Auth.Login.{
  LoginRequest, invalid_credentials, validate_login, check_request, find_user, check_lock,
  wrong_password, check_password, reset_counter,
}

module _ (K : Valkey) (H : Hashes K) (lib : Lib) (config : Config) (env : Env)
    (body : Option LoginRequest) (w : World K) where
  -- The users before and after the request; the settings are those of the tables.
  abbrev pub before : List User
  before = w.db.core.users

  -- The row of the user, after a failed attempt that was counted.
  abbrev pub counted_users : User → List User
  counted_users u =
      (increment_failed_logins env.sql_now w.db.settings.lockout_threshold
        w.db.settings.lockout_duration_secs u.id before).0

  -- A refusal opens nothing: Valkey is as it was, and so are the users, but for a failed attempt that
  -- was counted.
  abbrev pub Unopened : World K → Type 0
  Unopened s =
      (s.kv ≡ w.kv)
      × ((s.db.core.users ≡ before)
          ⊎ ((req : LoginRequest) × (u : User) × (body ≡ some req)
              × (find (has_email (lib.to_lower req.email)) before ≡ some u)
              × (lib.verify_password req.password u.password_hash ≡ ok false)
              × (s.db.core.users ≡ counted_users u)))

  abbrev pub Refused : Reply → World K → Type 0
  Refused (failure status code message) s = (status ≡ 500) ⊎ Unopened s
  Refused (account_locked n) s = Unopened s
  Refused r s = ⊥

  -- The request is one that is looked at.
  abbrev pub IsAsked : LoginRequest → Type 0
  IsAsked req = (body ≡ some req) × (env.origin ≡ config.public_url) × (validate_login req ≡ none)

  abbrev pub Same : World K → Type 0
  Same s = (s.kv ≡ w.kv) × (s.db.core.users ≡ before)

  abbrev pub IsOpen : World K → Type 0
  IsOpen s = (s.kv ≡ w.kv) × (s.db ≡ w.db) × (s.view ≡ w.db)

  pub check_request-Ends :
      Ends (λ req s. (s ≡ w) × IsAsked req) Refused (check_request K H lib config env body w)
  unfolding check_request
  check_request-Ends = ground (arith, eq_iff env.origin config.public_url)

  pub find_user-Ends :
      (req : LoginRequest) (s : World K)
      → s ≡ w
      → Ends
          (λ u s'. IsOpen s' × (find (has_email (lib.to_lower req.email)) before ≡ some u))
          Refused
          (find_user K H lib config env body req s)
  unfolding find_user get_by_email
  find_user-Ends req s same = ground arith

  pub check_lock-Ends :
      (u : User) (s : World K)
      → IsOpen s
      → Ends
          (λ _ s'. IsOpen s' × (is_locked env.now u.locked_until ≡ false))
          Refused
          (check_lock K H lib config env body u s)
  unfolding check_lock
  check_lock-Ends u s (kv, db, view) = ground arith

  -- A failed attempt ends in an error, or refused as wrong credentials, counted or not.
  abbrev Counted : User → Reply → World K → Type 0
  Counted u r s =
      (r ≡ internal_error)
      ⊎ ((r ≡ invalid_credentials)
          × (s.kv ≡ w.kv)
          × ((s.db.core.users ≡ before) ⊎ (s.db.core.users ≡ counted_users u)))

  wrong_password-Counted :
      (u : User) (s : World K)
      → IsOpen s
      → Ends {A = Unit {0}} (λ _ _. ⊥) (Counted u) (wrong_password K H lib config env body u s)
  unfolding wrong_password
  wrong_password-Counted u s (kv, db, view) = ground arith

  Counted-Refused :
      (req : LoginRequest) (u : User)
      → body ≡ some req
      → find (has_email (lib.to_lower req.email)) before ≡ some u
      → lib.verify_password req.password u.password_hash ≡ ok false
      → (r : Reply) (s : World K) → Counted u r s
      → Refused r s
  Counted-Refused req u asked there wrong r s (inl is) = rw is (inl refl)
  Counted-Refused req u asked there wrong r s (inr (is, kv, inl same)) = rw is (inr (kv, inl same))
  Counted-Refused req u asked there wrong r s (inr (is, kv, inr it)) =
      rw is (inr (kv, inr (req, u, asked, there, wrong, it)))

  pub check_password-Ends :
      (req : LoginRequest) (u : User) (s : World K)
      → body ≡ some req
      → find (has_email (lib.to_lower req.email)) before ≡ some u
      → IsOpen s
      → Ends
          (λ _ s'. IsOpen s' × (lib.verify_password req.password u.password_hash ≡ ok true))
          Refused
          (check_password K H lib config env body req u s)
  unfolding check_password
  check_password-Ends req u s asked there now_open =
      elim (Result-cases (lib.verify_password req.password u.password_hash)) [
        | inl (true, right) ↦ rw (right, check_password) (now_open, refl)
        | inl (false, wrong) ↦
            rw (wrong, check_password)
              (Ends-map (λ _ _. ⊥)
                (λ _ s'. IsOpen s' × (◌≡◌ {A = Result (Unit {0}) Bool} (ok false) (ok true)))
                (Counted u) Refused (wrong_password K H lib config env body u s)
                (λ a s' never. absurd never) (Counted-Refused req u asked there wrong)
                (wrong_password-Counted u s now_open))
        | inr (e, broken) ↦ rw (broken, check_password) (inl refl)
      ]

  -- The users after the counter was reset, in the open transaction.
  abbrev pub IsReset : User → World K → Type 0
  IsReset u s =
      (s.kv ≡ w.kv)
      × (s.view.core.users ≡ (reset_failed_logins env.sql_now u.id before).0)
      × (s.view.settings ≡ w.db.settings)

  pub reset_counter-Ends :
      (u : User) (s : World K)
      → IsOpen s
      → Ends (λ _ s'. IsReset u s') Refused (reset_counter K H lib config env body u s)
  unfolding reset_counter
  reset_counter-Ends u s (kv, db, view) = ground arith

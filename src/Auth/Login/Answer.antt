-- ===== src/Auth/Login/Answer.antt =====
-- A login that is in order is answered with a session.
use schlass.Base.{
  ◌≡◌, ◌≢◌, refl, inl, inr, Bool, true, false, Option, none, some, List, [], ◌∷◌, String, nat_eq,
  ok, next, reply, arith, eq_iff, Bool-cases, Option-cases,
}
use text.Mathlib.TextPositions.{eq_refl}
use schlass.Store.Tables.{User}
use schlass.Store.Sql.{find, update_where, count_where}
use schlass.Valkey.Server.{Valkey}
use schlass.Valkey.Hashes.{Hashes}
use schlass.Session.Store.{create}
use schlass.Users.Store.{has_email, has_id, get_by_email, set_last_login_at}
use schlass.Users.Lockout.{is_locked, not_locked, may_count, reset, reset_failed_logins}
use schlass.Auth.Env.{
  Lib, Config, Env, Call, threshold_query, duration_query, begin_tx, email_query, reset_update,
  mfa_query, audit_insert, login_update, commit, signed_in, user_dto, World,
}
use schlass.Auth.Steps.{with_users}
use schlass.Auth.Login.{
  LoginRequest, validate_login, check_request, find_user, check_lock, check_password, reset_counter,
  record_login, sign_in, branch, by_password, post_login,
}
use schlass.Auth.Login.Guarantee.{path_for}

-- What one condition finds, another finds that the row meets.
found_too :
    (p q : User → Bool) (users : List User) (u : User)
    → find p users ≡ some u
    → q u ≡ true
    → find q users ≢ none
unfolding find
found_too p q [] u e holds missing = cc
found_too p q (v ∷ us) u e holds missing = elim (Bool-cases (p v)) [
  | inl here ↦
      let is : v ≡ u = let it = rw here at e in ground arith in
      let met : q v ≡ true = rw is holds in let it = rw met at missing in cc
  | inr there ↦ elim (Bool-cases (q v)) [
    | inl met ↦ let it = rw met at missing in cc
    | inr passed ↦ found_too p q us u (rw there at e) holds (rw passed at missing)
  ]
]

-- Such a row is counted in the table that an update of other columns leaves.
counted_too :
    (q r : User → Bool) (f : User → User) (users : List User)
    → ((u : User) → q (f u) ≡ q u)
    → find q users ≢ none
    → nat_eq (count_where q (update_where r f users)) 0 ≡ false
unfolding find count_where update_where
counted_too q r f [] same there = absurd (there refl)
counted_too q r f (u ∷ us) same there = elim (Bool-cases (q u)) [
  | inl met ↦ ground (arith, same u)
  | inr other ↦
      let rest = counted_too q r f us same (λ missing. there (rw other missing)) in
      ground (arith, same u)
]

module _ (K : Valkey) (H : Hashes K) (lib : Lib) (config : Config) (env : Env)
    (body : Option LoginRequest) (w : World K) where
  -- The state after pool.Begin, and after the attempts are forgotten.
  abbrev begun : World K
  begun = record w { view = w.db }

  abbrev forgotten : User → World K
  forgotten u = record w {
    view = with_users (reset_failed_logins env.sql_now u.id w.db.core.users).0 w.db;
  }

  checked :
      (req : LoginRequest)
      → body ≡ some req
      → env.origin ≡ config.public_url
      → validate_login req ≡ none
      → check_request K H lib config env body w ≡ (w, next req)
  unfolding check_request
  checked req asked origin valid = ground (arith, eq_iff env.origin config.public_url)

  found :
      (req : LoginRequest) (u : User)
      → ((c : Call) → env.fails c ≡ false)
      → find (has_email (lib.to_lower req.email)) w.db.core.users ≡ some u
      → find_user K H lib config env body req w ≡ (begun, next u)
  unfolding find_user get_by_email
  found req u calls named =
      rw
        (
          calls threshold_query,
          calls duration_query,
          calls begin_tx,
          calls email_query,
          named,
          find_user,
        )
        refl

  may_reset :
      (u : User)
      → find (has_id u.id) w.db.core.users ≢ none
      → find (may_count env.sql_now u.id) w.db.core.users ≢ none
      → ((c : Call) → env.fails c ≡ false)
      → reset_counter K H lib config env body u begun ≡ (forgotten u, next tt)
  unfolding reset_counter reset_failed_logins
  may_reset u there countable calls =
      elim (Option-cases (find (may_count env.sql_now u.id) w.db.core.users)) [
        | inl missing ↦ absurd (countable missing)
        | inr (row, at) ↦ rw (calls reset_update, at, reset_counter, reset_failed_logins) refl
      ]

  signed :
      (u : User) (path token : String) (kv : K.State)
      → ((c : Call) → env.fails c ≡ false)
      → find (has_id u.id) w.db.core.users ≢ none
      → u.force_password_change ≡ false
      → w.db.settings.mfa_required ≡ false
      → create K config.session_ttl env.session_now env.fresh u.id env.ip env.user_agent w.kv
        ≡ (kv, ok token)
      → (branch K H lib config env body {A = ⊥} u path (forgotten u)).1
        ≡ reply (signed_in token (user_dto u) path)
  unfolding branch by_password sign_in record_login set_last_login_at reset_failed_logins
  signed u path token kv calls there lasting single started =
      let counted =
        counted_too (has_id u.id) (may_count env.sql_now u.id) (reset env.sql_now) w.db.core.users
          (λ v. refl) there in
      rw
        (
          lasting,
          calls mfa_query,
          single,
          calls audit_insert,
          counted,
          calls login_update,
          calls commit,
          started,
        )
        refl

  unlocked_passes :
      (u : User)
      → is_locked env.now u.locked_until ≡ false
      → check_lock K H lib config env body u begun ≡ (begun, next tt)
  unfolding check_lock
  unlocked_passes u unlocked = rw (unlocked, check_lock) refl

  password_passes :
      (req : LoginRequest) (u : User)
      → lib.verify_password req.password u.password_hash ≡ ok true
      → check_password K H lib config env body req u begun ≡ (begun, next tt)
  unfolding check_password
  password_passes req u verified = rw (verified, check_password) refl

  -- A login is answered with a session for the user, and the path to return to, if: no call fails; the request comes from the
  -- server's own pages and is valid; its email is that of a user who is locked neither for the server nor for the database,
  -- and whose password it has, which is not a temporary one; the setting mfa_required is off (the user may be enrolled); and the session store
  -- creates a session.
  pub post_login-answers :
      (req : LoginRequest) (u : User) (token : String) (kv : K.State)
      → ((c : Call) → env.fails c ≡ false)
      → body ≡ some req
      → env.origin ≡ config.public_url
      → validate_login req ≡ none
      → find (has_email (lib.to_lower req.email)) w.db.core.users ≡ some u
      → is_locked env.now u.locked_until ≡ false
      → not_locked env.sql_now u.locked_until ≡ true
      → lib.verify_password req.password u.password_hash ≡ ok true
      → u.force_password_change ≡ false
      → w.db.settings.mfa_required ≡ false
      → create K config.session_ttl env.session_now env.fresh u.id env.ip env.user_agent w.kv
        ≡ (kv, ok token)
      → (post_login K H lib config env body w).1
        ≡ reply (signed_in token (user_dto u) (path_for K H lib config env body w req))
  unfolding post_login
  post_login-answers req u token kv calls asked origin valid named unlocked countable verified
        lasting single started =
      let there =
        found_too (has_email (lib.to_lower req.email)) (has_id u.id) w.db.core.users u named
          (eq_refl u.id) in
      let free : may_count env.sql_now u.id u ≡ true = rw (eq_refl u.id, countable) refl in
      let reset_row =
        found_too (has_email (lib.to_lower req.email)) (may_count env.sql_now u.id) w.db.core.users
          u named free in
      rw
        (
          checked req asked origin valid,
          found req u calls named,
          unlocked_passes u unlocked,
          password_passes req u verified,
          may_reset u there reset_row calls,
          post_login,
        )
        (signed u (path_for K H lib config env body w req) token kv calls there lasting single
          started)

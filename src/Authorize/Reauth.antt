-- ===== src/Authorize/Reauth.antt =====
-- When the authorization endpoint asks for no new login.
use schlass.Base.{
  ℕ, ◌-◌, ◌≤◌, ◌≡◌, ◌≢◌, ◌⊎◌, Bool-cases, Result, ok, err, ltb, ◌==◌, refl, inl, inr, Bool, true,
  false, Option, none, some, String, Ends, arith, eq_iff,
}
use schlass.Store.Tables.{User}
use schlass.Valkey.Keys.{Session}
use schlass.Session.Store.{SessionError, get_session}
use schlass.Valkey.Server.{Valkey}
use schlass.Authorize.Endpoint.{Query, Env, Reply, World}
use schlass.Authorize.{too_old, session_too_old, need_reauth}

module _ (K : Valkey) (env : Env) (q : Query) (w : World K) where
  -- The session that was read, if one was, is not older than max_age.
  abbrev pub IsYoung : ℕ → Result SessionError Session → Type 0
  IsYoung max_age (ok session) = env.now - session.created_at ≤ max_age
  IsYoung max_age (err e) = Unit {0}

  -- max_age asks for nothing, or there is no cookie, or its session is young enough.
  abbrev pub IsRecent : ℕ → Type 0
  IsRecent max_age =
      (max_age ≡ 0)
      ⊎ ((env.cookie ≡ none)
          ⊎ ((token : String) × (env.cookie ≡ some token)
              × IsYoung max_age (get_session K env.session_ttl env.now token w.kv).1))

  -- No login is needed: none was asked for, and the session is recent.
  abbrev pub Passes : ℕ → Bool → Type 0
  Passes max_age true = Unit {0}
  Passes max_age false = (q.prompt ≢ "login") × IsRecent max_age

  read-Passes :
      (Q : Reply → World K → Type 0) (max_age : ℕ) (token : String)
      (r : K.State × Result SessionError Session)
      → q.prompt ≢ "login"
      → env.cookie ≡ some token
      → (get_session K env.session_ttl env.now token w.kv).1 ≡ r.1
      → Ends (λ again s'. (s'.db ≡ w.db) × Passes max_age again) Q (too_old K env q max_age w r)
  read-Passes Q max_age token (kv, err e) other there read =
      (refl, (other, inr (inr (token, there, rw read tt))))
  read-Passes Q max_age token (kv, ok session) other there read =
      elim (Bool-cases (ltb max_age (env.now - session.created_at))) [
        | inl old ↦ rw old (refl, tt)
        | inr young ↦ rw young (refl, (other, inr (inr (token, there, rw read (ground arith)))))
      ]

  cookie-Passes :
      (Q : Reply → World K → Type 0) (max_age : ℕ) (cookie : Option String)
      → q.prompt ≢ "login"
      → env.cookie ≡ cookie
      → Ends
          (λ again s'. (s'.db ≡ w.db) × Passes max_age again)
          Q
          (session_too_old K env q max_age cookie w)
  cookie-Passes Q max_age none other there = (refl, (other, inr (inl there)))
  cookie-Passes Q max_age (some token) other there =
      read-Passes Q max_age token (get_session K env.session_ttl env.now token w.kv) other there
        refl

  pub need_reauth-Ends :
      (Q : Reply → World K → Type 0) (max_age : ℕ) (user : Option User)
      → Ends
          (λ again s'. (s'.db ≡ w.db) × Passes max_age again)
          Q
          (need_reauth K env q max_age user w)
  unfolding need_reauth
  need_reauth-Ends Q max_age none = (refl, tt)
  need_reauth-Ends Q max_age (some u) = elim (Bool-cases (q.prompt == "login")) [
    | inl login ↦ rw login (refl, tt)
    | inr other ↦
        let not_login : q.prompt ≢ "login" = let it = eq_iff q.prompt "login" in ground arith in
        elim (Bool-cases (ltb 0 max_age)) [
          | inl limited ↦ rw (other, limited) (cookie-Passes Q max_age env.cookie not_login refl)
          | inr unlimited ↦ rw (other, unlimited) (refl, (not_login, inl (ground arith)))
        ]
  ]

-- ===== src/Auth/Middleware/Guarantee.antt =====
-- Whom the middleware lets through, and that the optional one agrees.
use schlass.Base.{
  ◌≡◌, refl, sym, false, Option, none, some, String, ◌==◌, Result, ok, err, Outcome, next, reply,
  Option-cases, Bool-cases, inl, inr, ap,
}
use schlass.Store.Tables.{User}
use schlass.Valkey.Keys.{Session}
use schlass.Valkey.Server.{Valkey}
use schlass.Session.Store.{SessionError, not_found, get_session}
use schlass.Users.Store.{UserError, user_not_found, query_failed, get_by_id}
use schlass.Auth.Env.{Lib, Config, Env, user_query, Reply, World}
use schlass.Auth.Steps.{not_authenticated}
use schlass.Auth.Middleware.{
  Identity, known, no_session, store_failed, query_error, user_of, owner_of, session_found,
  identify, authorized, middleware, optional_user_of, optional_owner_of, optional_session,
  optional_middleware,
}

abbrev pub user_let_through : {S : Type 0} → S × Outcome Reply User → S × Option User
user_let_through (s, next u) = (s, some u)
user_let_through (s, reply r) = (s, none)

module _ (K : Valkey) (lib : Lib) (config : Config) (env : Env) where
  -- The user whose session has this token.
  pub record IsOwner (token : String) (u : User) (w : World K) : Type 0 where
    pub session : Session
    pub user_id : String
    pub live : (get_session K config.session_ttl env.session_now token w.kv).1 ≡ ok session
    pub parsed : lib.parse_uuid session.user_id ≡ some user_id
    pub row : get_by_id (env.fails user_query) user_id w.db.core.users ≡ ok u
    pub enabled : (u.status == "disabled") ≡ false

  abbrev Whom : String → World K → World K × Identity → Type 0
  Whom token w (s, known u) = IsOwner token u w
  Whom token w (s, i) = Unit {0}

  user_of-Whom :
      (token : String) (session : Session) (uid : String) (r : Result UserError User)
      (w s : World K)
      → (get_session K config.session_ttl env.session_now token w.kv).1 ≡ ok session
      → lib.parse_uuid session.user_id ≡ some uid
      → get_by_id (env.fails user_query) uid w.db.core.users ≡ r
      → Whom token w (user_of K lib config env token session uid r s)
  user_of-Whom token session uid (err query_failed) w s live parsed row = tt
  user_of-Whom token session uid (err user_not_found) w s live parsed row = tt
  user_of-Whom token session uid (ok u) w s live parsed row =
      elim (Bool-cases (u.status == "disabled")) [
        | inl disabled ↦ rw disabled tt
        | inr enabled ↦ rw enabled (record {
          session = session;
          user_id = uid;
          live = live;
          parsed = parsed;
          row = row;
          enabled = enabled;
        })
      ]

  owner_of-Whom :
      (token : String) (session : Session) (o : Option String) (w : World K) (kv : K.State)
      → (get_session K config.session_ttl env.session_now token w.kv).1 ≡ ok session
      → lib.parse_uuid session.user_id ≡ o
      → Whom token w (owner_of K lib config env token session o (record w { kv = kv }))
  owner_of-Whom token session none w kv live parsed = tt
  owner_of-Whom token session (some uid) w kv live parsed =
      user_of-Whom token session uid (get_by_id (env.fails user_query) uid w.db.core.users) w
        (record w { kv = kv }) live parsed refl

  found-Whom :
      (token : String) (r : K.State × Result SessionError Session) (w : World K)
      → get_session K config.session_ttl env.session_now token w.kv ≡ r
      → Whom token w (session_found K lib config env token r w)
  found-Whom token (kv, ok session) w e =
      owner_of-Whom token session (lib.parse_uuid session.user_id) w kv (ap (λ p. p.1) e) refl
  found-Whom token (kv, err not_found) w e = tt
  found-Whom token (kv, err _) w e = tt

  identify-Whom : (token : String) (w : World K) → Whom token w (identify K lib config env token w)
  unfolding identify
  identify-Whom token w =
      found-Whom token (get_session K config.session_ttl env.session_now token w.kv) w refl

  let_through :
      (token : String) (w : World K) (m : World K × Identity) (s : World K) (u : User)
      → Whom token w m
      → authorized K lib config env m ≡ (s, next u)
      → IsOwner token u w
  let_through token w (t, known v) s u h e = let same : v ≡ u = cc in rw (sym same) h
  let_through token w (t, no_session) s u h e = cc
  let_through token w (t, store_failed) s u h e = cc
  let_through token w (t, query_error) s u h e = cc

  -- The middleware lets a request through only as the user to whom the session of its cookie belongs, who is in the table
  -- and not disabled.
  pub middleware-IsOwner :
      (w s : World K) (u : User)
      → middleware K lib config env w ≡ (s, next u)
      → (token : String) × (env.session_cookie ≡ some token) × IsOwner token u w
  unfolding middleware
  middleware-IsOwner w s u e = elim (Option-cases env.session_cookie) [
    | inl missing ↦ let it = rw (missing, middleware) at e in cc
    | inr (token, there) ↦
        let it = rw (there, middleware) at e in
        (
          token,
          there,
          let_through token w (identify K lib config env token w) s u (identify-Whom token w) it,
        )
  ]

  -- The two bodies, from the row of the user on, from the owner of the session on, and from the session on.
  rows_agree :
      (token : String) (session : Session) (uid : String) (r : Result UserError User) (s : World K)
      → optional_user_of K lib config env token session uid r s
        ≡ user_let_through
            (authorized K lib config env (user_of K lib config env token session uid r s))
  rows_agree token session uid (err query_failed) s = refl
  rows_agree token session uid (err user_not_found) s = refl
  rows_agree token session uid (ok u) s = elim (Bool-cases (u.status == "disabled")) [
    | inl disabled ↦ rw disabled refl
    | inr enabled ↦ rw enabled refl
  ]

  owners_agree :
      (token : String) (session : Session) (o : Option String) (s : World K)
      → optional_owner_of K lib config env token session o s
        ≡ user_let_through
            (authorized K lib config env (owner_of K lib config env token session o s))
  owners_agree token session none s = refl
  owners_agree token session (some uid) s =
      rows_agree token session uid (get_by_id (env.fails user_query) uid s.db.core.users) s

  sessions_agree :
      (token : String) (r : K.State × Result SessionError Session) (s : World K)
      → optional_session K lib config env token r s
        ≡ user_let_through (authorized K lib config env (session_found K lib config env token r s))
  sessions_agree token (kv, err not_found) s = refl
  sessions_agree token (kv, err _) s = refl
  sessions_agree token (kv, ok session) s =
      owners_agree token session (lib.parse_uuid session.user_id) (record s { kv = kv })

  -- Unless the cookie is empty, the optional middleware finds the user that the middleware lets through, and none where that
  -- refuses, and leaves what that leaves, but for the metadata of audit entries, which the model leaves out.
  pub optional-agrees :
      (w : World K)
      → ((token : String) → env.session_cookie ≡ some token → (token == "") ≡ false)
      → optional_middleware K lib config env w ≡ user_let_through (middleware K lib config env w)
  unfolding middleware optional_middleware identify
  optional-agrees w filled = elim (Option-cases env.session_cookie) [
    | inl missing ↦
        let gone : middleware K lib config env w ≡ (w, reply not_authenticated) =
          rw (missing, middleware) refl in
        let anonymous : optional_middleware K lib config env w ≡ (w, none) =
          rw (missing, optional_middleware) refl in
        rw (gone, anonymous) refl
    | inr (token, there) ↦
        let strict : middleware K lib config env w
            ≡ authorized K lib config env (identify K lib config env token w) =
          rw (there, middleware) refl in
        let optional : optional_middleware K lib config env w
            ≡ optional_session K lib config env token
                (get_session K config.session_ttl env.session_now token w.kv) w =
          rw (there, optional_middleware) (rw (filled token there) refl) in
        rw (strict, optional)
          (sessions_agree token (get_session K config.session_ttl env.session_now token w.kv) w)
  ]

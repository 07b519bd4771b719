-- ===== src/Token/CodeGrant/Conditions.antt =====
-- When the authorization-code grant issues tokens, and what a refusal leaves behind.
use schlass.Base.{
  ◌≡◌, refl, sym, ap, ◌⊎◌, inl, inr, true, Option, none, some, List, String, ◌==◌, contains,
  if◌then◌else◌, ok, Ends, arith, eq_iff, Bool-cases,
}
use schlass.Store.Tables.{Client, User, AuthCode}
use schlass.Store.Sql.{find}
use schlass.AuthCode.{consume_once, lookup_family_by_code_hash}
use schlass.Valkey.Server.{Valkey}
use schlass.Clients.Store.{get_by_id, verify_secret}
use schlass.Oidc.Scopes.{Scopes, to_string, intersect_scopes_against_client}
use schlass.Oidc.Pkce.{verify_pkce_sound}
use schlass.Token.Env.{
  Crypto, Config, Form, secret_query, client_query, consume_query, user_query, family_query, Env,
  TokenResponse, Reply, token_error, tokens, World,
}
use schlass.Token.Shared.{user_by_id, rate_limit_check, authenticate_client}
use schlass.Token.CodeGrant.{
  check_code_form, handle_code_replay, consumed_row, consume_code, check_binding, active_user,
  load_user, revalidate, mint_refresh, issue,
}

module _ (K : Valkey) (crypto : Crypto) (config : Config) (env : Env) (form : Form)
    (w : World K) where
  -- The table of codes after the code of the form is consumed.
  abbrev pub burned : List AuthCode
  burned = (consume_once env.sql_now (crypto.sha256hex form.code) w.db.codes).0

  -- Why tokens are issued.
  pub record IsRedeemed (s : World K) (t : TokenResponse) : Type 0 where
    pub client : Client
    pub row : AuthCode
    pub user : User
    pub scopes : Scopes
    pub authentic :
        verify_secret crypto.parse_uuid crypto.verify_password
          (env.fails secret_query)
          env.now
          form.client_id
          form.client_secret
          w.db.clients
        ≡ ok true
    pub known :
        get_by_id crypto.parse_uuid (env.fails client_query) form.client_id w.db.clients
        ≡ some client
    pub consumed : (consume_once env.sql_now (crypto.sha256hex form.code) w.db.codes).1 ≡ some row
    pub issued_to : row.client_id ≡ client.id
    pub issued_for : row.redirect_uri ≡ form.redirect_uri
    pub proved : crypto.s256 form.code_verifier ≡ row.code_challenge
    pub found : find (λ u. u.id == row.user_id) w.db.users ≡ some user
    pub active : user.status ≡ "active"
    pub granted : contains client.allowed_grant_types "authorization_code" ≡ true
    pub narrowed : intersect_scopes_against_client row.scopes client.allowed_scopes ≡ some scopes
    pub scope : t.scope ≡ to_string scopes
    pub spent : s.db.codes ≡ burned

  -- What holds once the handler has replied in the world `s`: tokens are issued for a reason, and an error
  -- leaves the codes as they were or with this code consumed, and the database as it was where it
  -- is the status 500.
  abbrev pub Final : Reply → World K → Type 0
  Final (tokens t) s = IsRedeemed s t
  Final (token_error status e d) s =
      ((s.db.codes ≡ w.db.codes) ⊎ (s.db.codes ≡ burned)) × (status ≡ 500 → s.db ≡ w.db)

  pub check_code_form-Ends : Ends (λ _ s. s ≡ w) Final (check_code_form K crypto config env form w)
  unfolding check_code_form
  check_code_form-Ends = ground arith

  pub rate_limit_check-Ends :
      (s : World K)
      → s.db ≡ w.db
      → Ends (λ _ s'. s'.db ≡ w.db) Final (rate_limit_check K config form.client_id s)
  unfolding rate_limit_check
  rate_limit_check-Ends s same = ground arith

  -- The client has proved its secret, and is active.
  abbrev pub IsAuthentic : Client → World K → Type 0
  IsAuthentic client s =
      (s.db ≡ w.db)
      × (verify_secret crypto.parse_uuid crypto.verify_password (env.fails secret_query) env.now
            form.client_id form.client_secret w.db.clients
          ≡ ok true)
      × (get_by_id crypto.parse_uuid (env.fails client_query) form.client_id w.db.clients
          ≡ some client)

  pub authenticate_client-Ends :
      (s : World K) → s.db ≡ w.db → Ends IsAuthentic Final (authenticate_client K crypto env form s)
  unfolding authenticate_client
  authenticate_client-Ends s same = ground arith

  pub handle_code_replay-Ends :
      (P : AuthCode → World K → Type 0) (hash : String) (family : Option String) (s : World K)
      → s.db ≡ w.db
      → Ends P Final (handle_code_replay K crypto config env form hash family s)
  unfolding handle_code_replay
  handle_code_replay-Ends P hash none s same = ground arith
  handle_code_replay-Ends P hash (some family) s same =
      (inl (ground arith), λ e. absurd (omega arith))

  -- The code is consumed in the transaction's view, and the row is the one that was consumed.
  abbrev pub IsTaken : AuthCode → World K → Type 0
  IsTaken row s =
      (s.db ≡ w.db)
      × (s.view.codes ≡ burned)
      × (s.view.users ≡ w.db.users)
      × ((consume_once env.sql_now (crypto.sha256hex form.code) w.db.codes).1 ≡ some row)

  pub consumed_row-Ends :
      (s : World K) (r : List AuthCode × Option AuthCode)
      → s.db ≡ w.db
      → s.view ≡ w.db
      → r ≡ consume_once env.sql_now (crypto.sha256hex form.code) w.db.codes
      → Ends IsTaken Final (consumed_row K crypto config env form (crypto.sha256hex form.code) s r)
  consumed_row-Ends s (codes, some row) same view e =
      (same, ap (λ p. p.0) e, ap (λ d. d.users) view, sym (ap (λ p. p.1) e))
  consumed_row-Ends s (codes, none) same view e =
      handle_code_replay-Ends IsTaken (crypto.sha256hex form.code)
        (if env.fails family_query
          then none
          else lookup_family_by_code_hash (crypto.sha256hex form.code) s.db.codes)
        s same

  pub consume_code-Ends :
      (s : World K)
      → s.db ≡ w.db
      → s.view ≡ w.db
      → Ends IsTaken Final (consume_code K crypto config env form s)
  unfolding consume_code
  consume_code-Ends s same view = elim (Bool-cases (env.fails consume_query)) [
    | inl broken ↦ rw broken (inl (ap (λ d. d.codes) same), λ _. same)
    | inr fine ↦ rw fine (
        consumed_row-Ends s (consume_once env.sql_now (crypto.sha256hex form.code) s.view.codes)
          same view (ap (λ d. consume_once env.sql_now (crypto.sha256hex form.code) d.codes) view))
  ]

  -- The world while the code is consumed and not yet committed.
  abbrev pub Consumed : World K → Type 0
  Consumed s = (s.db ≡ w.db) × (s.view.codes ≡ burned) × (s.view.users ≡ w.db.users)

  -- The code was issued to the client, for the redirect URI and the challenge that the form meets.
  abbrev pub IsBound : AuthCode → Client → World K → Type 0
  IsBound row client s =
      Consumed s
      × (row.client_id ≡ client.id)
      × (row.redirect_uri ≡ form.redirect_uri)
      × (crypto.s256 form.code_verifier ≡ row.code_challenge)

  pub check_binding-Ends :
      (row : AuthCode) (client : Client) (s : World K)
      → Consumed s
      → Ends (λ _. IsBound row client) Final (check_binding K crypto config env form row client s)
  unfolding check_binding
  check_binding-Ends row client s (same, codes, users) = ground (
    arith,
    eq_iff row.client_id client.id,
    eq_iff row.redirect_uri form.redirect_uri,
    verify_pkce_sound crypto.s256 row.code_challenge form.code_verifier,
  )

  -- The user of the code is found and active.
  abbrev pub IsActiveOwner : AuthCode → User → World K → Type 0
  IsActiveOwner row u s =
      Consumed s × (find (λ u. u.id == row.user_id) w.db.users ≡ some u) × (u.status ≡ "active")

  pub active_user-Ends :
      (row : AuthCode) (client : Client) (s : World K) (o : Option User)
      → Consumed s
      → ((u : User) → o ≡ some u → find (λ u. u.id == row.user_id) w.db.users ≡ some u)
      → Ends (IsActiveOwner row) Final (active_user K crypto config env form row client o s)
  active_user-Ends row client s none (same, codes, users) h = ground arith
  active_user-Ends row client s (some u) (same, codes, users) h =
      let it = h u refl in ground (arith, eq_iff u.status "active")

  pub load_user-Ends :
      (row : AuthCode) (client : Client) (s : World K)
      → Consumed s
      → Ends (IsActiveOwner row) Final (load_user K crypto config env form row client s)
  unfolding load_user
  load_user-Ends row client s (same, codes, users) =
      active_user-Ends row client s (user_by_id (env.fails user_query) row.user_id s.view.users)
        (same, codes, users) λ u e. rw (← users) (ground arith)

  -- The client is still allowed the grant, and the scopes are those that it is still allowed.
  abbrev pub IsAllowed : AuthCode → Client → Scopes → World K → Type 0
  IsAllowed row client scopes s =
      Consumed s
      × (contains client.allowed_grant_types "authorization_code" ≡ true)
      × (intersect_scopes_against_client row.scopes client.allowed_scopes ≡ some scopes)

  pub revalidate-Ends :
      (row : AuthCode) (client : Client) (u : User) (s : World K)
      → Consumed s
      → Ends (IsAllowed row client) Final (revalidate K crypto config env form row client u s)
  unfolding revalidate
  revalidate-Ends row client u s (same, codes, users) = ground arith

  -- How the issuing ends: with the scopes granted and the code's consumption committed, or with
  -- the database as it was.
  abbrev pub Issued : Scopes → Reply → World K → Type 0
  Issued scopes (tokens t) s = (t.scope ≡ to_string scopes) × (s.db.codes ≡ burned)
  Issued scopes (token_error status e d) s = s.db ≡ w.db

  pub issue-Ends :
      (row : AuthCode) (client : Client) (u : User) (scopes : Scopes) (s : World K)
      → Consumed s
      → Ends (λ _ _. ⊥) (Issued scopes) (issue K crypto config env form row client u scopes s)
  unfolding issue mint_refresh
  issue-Ends row client u scopes s (same, codes, users) = ground arith

-- ===== src/Token/RefreshGrant/Conditions.antt =====
-- When the refresh grant issues tokens, and what a refusal leaves behind.
use schlass.Base.{
  ℕ, ◌≤◌, ◌≡◌, refl, sym, ap, inl, inr, true, false, Option, none, some, String, ◌==◌, contains,
  Result, ok, err, Ends, arith, eq_iff, Option-cases, Bool-cases, ltb,
}
use schlass.Store.Tables.{Entry, Client, User}
use schlass.Store.Sql.{find}
use schlass.Valkey.Keys.{RefreshPayload}
use schlass.Valkey.Server.{Valkey}
use schlass.Refresh.{
  CreateError, create, consume, mark_used, ConsumeError, unknown_or_expired, reuse_detected,
  consume_failed,
}
use schlass.Session.RevokeBefore.{CutoffError, revoke_before_get}
use schlass.Clients.Store.{get_by_id, verify_secret}
use schlass.Oidc.Scopes.{Scopes, to_string, intersect_scopes_against_client}
use schlass.Oidc.Claims.{unix}
use schlass.Token.Env.{
  Crypto, Config, Form, secret_query, client_query, user_query, Env, TokenResponse, Reply,
  token_error, tokens, World,
}
use schlass.Token.Shared.{
  user_by_id, write_best_effort_audit, rate_limit_check, authenticate_client,
}
use schlass.Token.RefreshGrant.{
  check_refresh_form, revoke_and_refuse, presented, consume_presented, revalidate, active_user,
  load_user, within_cutoff, check_cutoff, rotate, issue,
}

module _ (K : Valkey) (crypto : Crypto) (config : Config) (env : Env) (form : Form)
    (w : World K) where
  -- Valkey after the rate limit was counted: what the rest of the handler reads.
  abbrev pub counted : K.State
  counted = (rate_limit_check K config form.client_id w).0.kv

  -- The token that takes the place of the old one: of its family, and with its expiry.
  abbrev pub successor : RefreshPayload → Client → User → Scopes → RefreshPayload
  successor old client u scopes = record {
    user_id = u.id;
    client_id = client.id;
    scopes = scopes;
    family_id = old.family_id;
    created_at = unix env.now;
    expires = old.expires;
    used = false;
  }

  -- The creation of the new token.
  abbrev pub created : RefreshPayload → Client → User → Scopes → K.State × Result CreateError String
  created old client u scopes =
      create K crypto.sha256hex (unix env.store_now) env.fresh (successor old client u scopes)
        counted

  -- Why tokens are issued, and what the rotation leaves.
  pub record IsRotated (s : World K) (t : TokenResponse) : Type 0 where
    pub client : Client
    pub old : RefreshPayload
    pub user : User
    pub uid : String
    pub scopes : Scopes
    pub authentic :
        verify_secret crypto.parse_uuid crypto.verify_password
          (env.fails secret_query)
          env.now
          form.client_id
          form.client_secret
          w.db.clients
        ≡ ok true
    pub known :
        get_by_id crypto.parse_uuid (env.fails client_query) form.client_id w.db.clients
        ≡ some client
    pub consumed : consume K crypto.sha256hex form.refresh_token counted ≡ ok old
    pub issued_to : old.client_id ≡ client.id
    pub granted : contains client.allowed_grant_types "refresh_token" ≡ true
    pub narrowed : intersect_scopes_against_client old.scopes client.allowed_scopes ≡ some scopes
    pub named : crypto.parse_uuid old.user_id ≡ some uid
    pub found : find (λ u. u.id == uid) w.db.users ≡ some user
    pub active : user.status ≡ "active"
    pub not_revoked : (c : ℕ) → revoke_before_get K user.id counted ≡ ok c → c ≤ old.created_at
    pub renewed : (created old client user scopes).1 ≡ ok t.refresh_token
    pub marked :
        s.kv
        ≡ (mark_used K crypto.sha256hex form.refresh_token (created old client user scopes).0).0
    pub scope : t.scope ≡ to_string scopes

  -- The tables of the database, but for the audit log, as they were.
  abbrev pub IsKept : World K → Type 0
  IsKept s =
      (s.db.users ≡ w.db.users)
      × (s.db.clients ≡ w.db.clients)
      × (s.db.codes ≡ w.db.codes)
      × (s.db.keys ≡ w.db.keys)

  abbrev pub Final : Reply → World K → Type 0
  Final (tokens t) s = IsRotated s t × IsKept s
  Final (token_error status e d) s = IsKept s

  pub write_best_effort_audit-IsKept :
      (e : Entry) (s : World K) → s.db ≡ w.db → IsKept (write_best_effort_audit K env e s)
  unfolding write_best_effort_audit
  write_best_effort_audit-IsKept e s same = ground arith

  pub check_refresh_form-Ends :
      Ends (λ _ s. s ≡ w) Final (check_refresh_form K crypto config env form w)
  unfolding check_refresh_form
  check_refresh_form-Ends = ground arith

  -- The world in which the checks are made.
  abbrev pub IsUnchanged : World K → Type 0
  IsUnchanged s = (s.db ≡ w.db) × (s.kv ≡ counted)

  pub rate_limit_check-Ends :
      Ends (λ _. IsUnchanged) Final (rate_limit_check K config form.client_id w)
  unfolding rate_limit_check
  rate_limit_check-Ends = ground arith

  -- The client has proved its secret, and is active.
  abbrev pub IsAuthentic : Client → World K → Type 0
  IsAuthentic client s =
      IsUnchanged s
      × (verify_secret crypto.parse_uuid crypto.verify_password (env.fails secret_query) env.now
            form.client_id form.client_secret w.db.clients
          ≡ ok true)
      × (get_by_id crypto.parse_uuid (env.fails client_query) form.client_id w.db.clients
          ≡ some client)

  pub authenticate_client-Ends :
      (s : World K)
      → IsUnchanged s
      → Ends IsAuthentic Final (authenticate_client K crypto env form s)
  unfolding authenticate_client
  authenticate_client-Ends s (same, kv) = ground arith

  refused-Ends :
      {A : Type 0} (P : A → World K → Type 0) (old : RefreshPayload) (e : Entry) (status : ℕ)
      (error description : String) (s : World K)
      → s.db ≡ w.db
      → Ends P Final (
          revoke_and_refuse K crypto config env form old e (token_error status error description) s)
  unfolding revoke_and_refuse
  refused-Ends P old e status error description s same = write_best_effort_audit-IsKept e _ same

  -- The token is given out by Consume.
  abbrev pub IsConsumed : RefreshPayload → World K → Type 0
  IsConsumed old s =
      IsUnchanged s × (consume K crypto.sha256hex form.refresh_token counted ≡ ok old)

  presented-Ends :
      (client : Client) (s : World K) (r : Result ConsumeError RefreshPayload)
      → IsUnchanged s
      → consume K crypto.sha256hex form.refresh_token counted ≡ r
      → Ends IsConsumed Final (presented K crypto config env form client r s)
  presented-Ends client s (ok old) here e = (here, e)
  presented-Ends client s (err unknown_or_expired) (same, kv) e = ground arith
  presented-Ends client s (err (reuse_detected old)) (same, kv) e =
      refused-Ends IsConsumed old _ _ _ _ s same
  presented-Ends client s (err consume_failed) (same, kv) e = ground arith

  pub consume_presented-Ends :
      (client : Client) (s : World K)
      → IsUnchanged s
      → Ends IsConsumed Final (consume_presented K crypto config env form client s)
  unfolding consume_presented
  consume_presented-Ends client s (same, kv) =
      presented-Ends client s (consume K crypto.sha256hex form.refresh_token s.kv) (same, kv)
        (ap (consume K crypto.sha256hex form.refresh_token) (sym kv))

  -- The token was issued to the client, which is still allowed the grant and these scopes.
  abbrev pub IsAllowed : RefreshPayload → Client → Scopes → World K → Type 0
  IsAllowed old client scopes s =
      IsUnchanged s
      × (old.client_id ≡ client.id)
      × (contains client.allowed_grant_types "refresh_token" ≡ true)
      × (intersect_scopes_against_client old.scopes client.allowed_scopes ≡ some scopes)

  pub revalidate-Ends :
      (old : RefreshPayload) (client : Client) (s : World K)
      → IsUnchanged s
      → Ends (IsAllowed old client) Final (revalidate K crypto config env form old client s)
  unfolding revalidate
  revalidate-Ends old client s (same, kv) = ground (arith, eq_iff old.client_id client.id)

  -- The user that the token names is found and active.
  abbrev pub IsActiveOwner : RefreshPayload → User → World K → Type 0
  IsActiveOwner old u s =
      IsUnchanged s
      × (u.status ≡ "active")
      × ((uid : String) × (crypto.parse_uuid old.user_id ≡ some uid)
          × (find (λ u. u.id == uid) w.db.users ≡ some u))

  active_user-Ends :
      (old : RefreshPayload) (client : Client) (uid : String) (s : World K) (o : Option User)
      → IsUnchanged s
      → crypto.parse_uuid old.user_id ≡ some uid
      → ((u : User) → o ≡ some u → find (λ u. u.id == uid) w.db.users ≡ some u)
      → Ends (IsActiveOwner old) Final (active_user K crypto config env form old client o s)
  active_user-Ends old client uid s none (same, kv) named h = ground arith
  active_user-Ends old client uid s (some u) here named h =
      elim (Bool-cases (u.status == "active")) [
        | inl is_on ↦
            rw is_on
              (here, (let it = eq_iff u.status "active" in ground arith), (uid, named, h u refl))
        | inr off ↦ rw off (refused-Ends (IsActiveOwner old) old _ _ _ _ s here.0)
      ]

  pub load_user-Ends :
      (old : RefreshPayload) (client : Client) (s : World K)
      → IsUnchanged s
      → Ends (IsActiveOwner old) Final (load_user K crypto config env form old client s)
  unfolding load_user
  load_user-Ends old client s (same, kv) = elim (Option-cases (crypto.parse_uuid old.user_id)) [
    | inl malformed ↦ rw malformed (ground arith)
    | inr (uid, named) ↦ rw named (
        active_user-Ends old client uid s (user_by_id (env.fails user_query) uid s.db.users)
          (same, kv) named λ u e. rw (← same) (ground arith))
  ]

  -- A cutoff of the user that can be read is not later than the token.
  abbrev pub IsAfterCutoff : RefreshPayload → User → World K → Type 0
  IsAfterCutoff old u s =
      IsUnchanged s × ((c : ℕ) → revoke_before_get K u.id counted ≡ ok c → c ≤ old.created_at)

  within_cutoff-Ends :
      (old : RefreshPayload) (client : Client) (u : User) (s : World K) (r : Result CutoffError ℕ)
      → IsUnchanged s
      → revoke_before_get K u.id counted ≡ r
      → Ends
          (λ _. IsAfterCutoff old u)
          Final
          (within_cutoff K crypto config env form old client u r s)
  within_cutoff-Ends old client u s (err e) here read = (here, λ c h. cc)
  within_cutoff-Ends old client u s (ok cutoff) here read =
      elim (Bool-cases (ltb old.created_at cutoff)) [
        | inl late ↦ rw late (refused-Ends (λ _. IsAfterCutoff old u) old _ _ _ _ s here.0)
        | inr fine ↦ rw fine (here, λ c h. ground arith)
      ]

  pub check_cutoff-Ends :
      (old : RefreshPayload) (client : Client) (u : User) (s : World K)
      → IsUnchanged s
      → Ends (λ _. IsAfterCutoff old u) Final (check_cutoff K crypto config env form old client u s)
  unfolding check_cutoff
  check_cutoff-Ends old client u s (same, kv) =
      within_cutoff-Ends old client u s (revoke_before_get K u.id s.kv) (same, kv)
        (ap (revoke_before_get K u.id) (sym kv))

  -- How the issuing ends.
  abbrev pub Issued : RefreshPayload → Client → User → Scopes → Reply → World K → Type 0
  Issued old client u scopes (tokens t) s =
      (t.scope ≡ to_string scopes)
      × IsKept s
      × ((created old client u scopes).1 ≡ ok t.refresh_token)
      × (s.kv ≡ (mark_used K crypto.sha256hex form.refresh_token (created old client u scopes).0).0)
  Issued old client u scopes (token_error status e d) s = IsKept s

  pub issue-Ends :
      (old : RefreshPayload) (client : Client) (u : User) (scopes : Scopes) (s : World K)
      → IsUnchanged s
      → Ends
          (λ _ _. ⊥)
          (Issued old client u scopes)
          (issue K crypto config env form old client u scopes s)
  unfolding issue rotate
  issue-Ends old client u scopes s (same, kv) = ground arith

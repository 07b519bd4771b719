-- ===== src/Authorize/Conditions.antt =====
-- How the phases of the authorization endpoint end.
use schlass.Base.{
  ℕ, ◌+◌, ◌*◌, ◌≡◌, ◌≢◌, refl, ap, inl, inr, Bool, true, false, Option, none, some, List, [], ◌∷◌,
  String, All, contains, value_or, Ends, arith, eq_iff, Option-cases,
}
use schlass.Store.Tables.{Client, User, AuthCode}
use schlass.Store.Sql.{find}
use schlass.AuthCode.{has_hash, insert}
use schlass.Oidc.Claims.{second}
use schlass.Authorize.MaxAge.{max_age_of}
use schlass.Valkey.Server.{Valkey}
use schlass.Clients.Store.{get_by_id, validate_redirect_uri}
use schlass.Authorize.Endpoint.{
  Query, client_query, Env, Reply, local_error, redirect_error, redirect_code, to_login, World,
}
use schlass.Authorize.{
  separator, ref_of, invalid_request, server_error, first_not_allowed, scopes_of, nonce_of,
  write_best_effort_audit, render_local_error, load_client, check_query, authenticated, store_code,
}
use schlass.Authorize.Reauth.{IsRecent, Passes}

abbrev pub AreAllowed : List String → List String → Type 0
AreAllowed scopes allowed = All (λ sc. contains allowed sc ≡ true) scopes

first_not_allowed-none :
    (scopes allowed : List String)
    → first_not_allowed scopes allowed ≡ none
    → AreAllowed scopes allowed
unfolding first_not_allowed
first_not_allowed-none [] allowed e = tt
first_not_allowed-none (sc ∷ scopes) allowed e =
    ground (arith, first_not_allowed-none scopes allowed)

module _ (K : Valkey) (env : Env) (q : Query) (w : World K) where
  -- The query is one that a code may be issued for, to this client.
  abbrev pub IsValid : Client → Type 0
  IsValid c =
      (q.response_type ≡ "code")
      × (q.state ≢ "")
      × (q.code_challenge ≢ "")
      × (q.code_challenge_method ≡ "S256")
      × (contains (scopes_of q) "openid" ≡ true)
      × AreAllowed (scopes_of q) c.allowed_scopes

  -- The client is active and has registered the URI.
  abbrev pub HasRegistered : Client → String → Type 0
  HasRegistered c uri =
      (get_by_id env.parse_uuid (env.fails client_query) q.client_id w.db.clients ≡ some c)
      × (contains c.redirect_uris uri ≡ true)

  -- The row of a code that is given out at the time of the request.
  abbrev pub row : Client → User → String → AuthCode
  row c u code = record {
    code_hash = env.sha256hex code;
    client_id = c.id;
    user_id = u.id;
    redirect_uri = q.redirect_uri;
    scopes = scopes_of q;
    nonce = nonce_of q.nonce;
    code_challenge = q.code_challenge;
    code_challenge_method = q.code_challenge_method;
    expires_at = env.now + 60 * second;
    family_id = env.fresh_family;
    used = false;
  }

  -- Why a code is given out, and what is stored.
  pub record IsAuthorized (c : Client) (s : World K) (code : String) : Type 0 where
    pub valid : IsValid c
    pub user : User
    pub logged_in : env.current_user ≡ some user
    pub no_login : q.prompt ≢ "login"
    pub max_age : ℕ
    pub asked : max_age_of q.max_age ≡ some max_age
    pub recent : IsRecent K env q w max_age
    pub fresh : env.fresh_code ≡ some code
    pub unique : find (has_hash (env.sha256hex code)) w.db.codes ≡ none
    pub stored : s.db.codes ≡ row c user code ∷ w.db.codes

  -- What holds of a reply, for the client of the request.
  abbrev pub FinalFor : Client → Reply → World K → Type 0
  FinalFor c (local_error ref) s = s.db.codes ≡ w.db.codes
  FinalFor c (redirect_error uri separator e d state) s =
      (s.db.codes ≡ w.db.codes) × (uri ≡ q.redirect_uri)
  FinalFor c (redirect_code uri separator code state) s =
      (uri ≡ q.redirect_uri) × (state ≡ q.state) × IsAuthorized c s code
  FinalFor c (to_login return_to) s = (s.db.codes ≡ w.db.codes) × (q.prompt ≢ "none")

  pub load_client-Ends :
      Ends
        (λ c s. (s ≡ w) × HasRegistered c q.redirect_uri)
        (λ r s. (s.db.codes ≡ w.db.codes) × (r ≡ local_error (ref_of env.error_ref)))
        (load_client K env q w)
  unfolding load_client render_local_error write_best_effort_audit validate_redirect_uri
  load_client-Ends = ground arith

  pub check_query-Ends :
      (c : Client) (s : World K)
      → s ≡ w
      → Ends (λ _ s'. (s' ≡ w) × IsValid c) (FinalFor c) (check_query K env q c s)
  unfolding check_query
  check_query-Ends c s same =
      elim (Option-cases (first_not_allowed (scopes_of q) c.allowed_scopes)) [
        | inl none_left ↦
            let allowed = first_not_allowed-none (scopes_of q) c.allowed_scopes none_left in
            rw none_left (
              ground (
                arith,
                eq_iff q.response_type "code",
                eq_iff q.state "",
                eq_iff q.code_challenge "",
                eq_iff q.code_challenge_method "S256",
              ))
        | inr (sc, refused) ↦ rw refused (ground arith)
      ]

  pub authenticated-Ends :
      (c : Client) (again : Bool) (s : World K) (user : Option User)
      → s.db ≡ w.db
      → Ends
          (λ u s'. (s'.db ≡ w.db) × (again ≡ false) × (user ≡ some u))
          (FinalFor c)
          (authenticated K env q user again s)
  unfolding write_best_effort_audit
  authenticated-Ends c again s user same = ground (arith, eq_iff q.prompt "none")

  -- What holds of a reply, for the client, the user and the code of the transaction.
  abbrev pub Stored : Client → User → String → Reply → World K → Type 0
  Stored c u code (redirect_error uri separator e d state) s =
      (s.db.codes ≡ w.db.codes) × (uri ≡ q.redirect_uri)
  Stored c u code (redirect_code uri separator given state) s =
      (uri ≡ q.redirect_uri)
      × (state ≡ q.state)
      × (given ≡ code)
      × (find (has_hash (env.sha256hex code)) w.db.codes ≡ none)
      × (s.db.codes ≡ row c u code ∷ w.db.codes)
  Stored c u code _ s = ⊥

  pub store_code-Ends :
      (c : Client) (u : User) (code : String) (s : World K)
      → s.db ≡ w.db
      → Ends (λ _ _. ⊥) (Stored c u code) (store_code K env q c u code s)
  unfolding store_code insert
  store_code-Ends c u code s same =
      elim (Option-cases (find (has_hash (env.sha256hex code)) w.db.codes)) [
        | inl unique ↦ rw (same, unique) (ground arith)
        | inr (r, taken) ↦ rw (same, taken) (ground arith)
      ]

  pub Stored-FinalFor :
      (c : Client) (u : User) (code : String) (max_age : ℕ)
      → IsValid c
      → env.current_user ≡ some u
      → max_age_of q.max_age ≡ some max_age
      → Passes K env q w max_age false
      → env.fresh_code ≡ some code
      → (r : Reply) (s : World K) → Stored c u code r s
      → FinalFor c r s
  Stored-FinalFor c u code max_age valid user asked passes fresh (redirect_error uri sep e d state)
        s h =
      h
  Stored-FinalFor c u code max_age valid user asked (no_login, recent) fresh
        (redirect_code uri sep given state) s (to, same, is, unique, stored) =
      (
        to,
        same,
        record {
          valid = valid;
          user = u;
          logged_in = user;
          no_login = no_login;
          max_age = max_age;
          asked = asked;
          recent = recent;
          unique = rw is unique;
          fresh = rw is fresh;
          stored = rw is stored;
        },
      )
  Stored-FinalFor c u code max_age valid user asked passes fresh (local_error ref) s h = elim h [ ]
  Stored-FinalFor c u code max_age valid user asked passes fresh (to_login to) s h = elim h [ ]

  pub value_or-Ends :
      {A : Type 0} (c : Client) (o : Option A) (state d : String) (s : World K)
      → s ≡ w
      → Ends
          (λ a s'. (s' ≡ w) × (o ≡ some a))
          (FinalFor c)
          (value_or o (invalid_request q.redirect_uri state d) s)
  value_or-Ends c none state d s same = (ap (λ s. s.db.codes) same, refl)
  value_or-Ends c (some a) state d s same = (same, refl)

  pub code_or-Ends :
      (c : Client) (o : Option String) (s : World K)
      → s.db ≡ w.db
      → Ends
          (λ a s'. (s'.db ≡ w.db) × (o ≡ some a))
          (FinalFor c)
          (value_or o (server_error q.redirect_uri q.state "entropy") s)
  code_or-Ends c none s same = (ap (λ d. d.codes) same, refl)
  code_or-Ends c (some a) s same = (same, refl)

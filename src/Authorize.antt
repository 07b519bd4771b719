-- ===== src/Authorize.antt =====
-- AuthorizeHandler of internal/authserver/authorize.go.
pub mod Endpoint
pub mod MaxAge
pub mod Reauth
pub mod Conditions
pub mod Guarantee
pub mod Redemption
use schlass.Base.{
  ℕ, ◌+◌, ◌-◌, ◌*◌, ◌≡◌, Bool, true, false, not, ◌&&◌, ◌||◌, Option, none, some, List, [], ◌∷◌,
  String, ◌==◌, ◌⧺◌, contains, ltb, nat_eq, fields, has_char, if◌then◌else◌, Result, ok, err,
  Outcome, next, reply, Handler, respond, give, ensure, value_or, ◌>>=◌, ◌>>◌,
}
use schlass.Store.Tables.{Entry, Db, Client, User, AuthCode}
use schlass.AuthCode.{insert}
use schlass.Valkey.Keys.{Session}
use schlass.Valkey.Server.{Valkey}
use schlass.Session.Store.{SessionError, get_session, delete}
use schlass.Clients.Store.{get_by_id, validate_redirect_uri}
use schlass.Oidc.Claims.{second}
use schlass.Authorize.Endpoint.{
  Query, Call, client_query, begin_tx, insert_code, audit_insert, commit, side_begin, side_insert,
  side_commit, Env, Reply, local_error, redirect_error, redirect_code, to_login, World,
}
use schlass.Authorize.MaxAge.{max_age_of}

abbrev pub with_entry : Entry → Db → Db
with_entry e db = record db { audit_logs = e ∷ db.audit_logs }

abbrev pub auth_code_ttl : ℕ
auth_code_ttl = 60 * second

-- What stands between the client's URI and the parameters.
abbrev pub separator : String → String
separator uri = if has_char 63 uri then "&" else "?"

-- redirectError of an oidc.AuthorizeError.
abbrev pub error_to : (uri state error description : String) → Reply
error_to uri state error description = redirect_error uri (separator uri) error description state

abbrev pub invalid_request : (uri state description : String) → Reply
invalid_request uri state description = error_to uri state "invalid_request" description

-- ErrServerError
abbrev pub server_error : (uri state description : String) → Reply
server_error uri state description = error_to uri state "server_error" description

-- The first scope that the client is not allowed.
unfoldable pub first_not_allowed : List String → List String → Option String
first_not_allowed [] allowed = none
first_not_allowed (sc ∷ scopes) allowed =
    let later = first_not_allowed scopes allowed in if contains allowed sc then later else some sc

abbrev pub refuse_scope : Query → Option String → {S : Type 0} → Handler S Reply (Unit {0})
refuse_scope q none = give tt
refuse_scope q (some sc) =
    respond
      (error_to q.redirect_uri q.state "invalid_scope" ("scope not allowed for client: " ⧺ sc))

abbrev pub scopes_of : Query → List String
scopes_of q = fields (if q.scope == "" then "openid profile" else q.scope)

abbrev pub nonce_of : String → Option String
nonce_of n = if n == "" then none else some n

abbrev pub ref_of : Option String → String
ref_of none = "err_unknown"
ref_of (some ref) = ref

-- nonEmpty
abbrev pub non_empty : String → String → String
non_empty a fallback = if a == "" then fallback else a

module _ (K : Valkey) (env : Env) (q : Query) where
  abbrev pub Step : Type 0 → Type 0
  Step A = Handler (World K) Reply A

  -- writeBestEffortAudit: a transaction of its own, whose failure is only logged.
  unfoldable pub write_best_effort_audit : Entry → World K → World K
  write_best_effort_audit e w =
      if env.fails side_begin || env.fails side_insert || env.fails side_commit
      then w
      else record w { db = with_entry e w.db }

  -- renderLocalError: nothing is sent to the client's URI.
  unfoldable pub render_local_error : {A : Type 0} → Step A
  unfolding write_best_effort_audit
  render_local_error w = (
    write_best_effort_audit
        (record {
          event_type = "oidc.authorize.invalid_request";
          actor_id = none;
          actor_email = "";
          target_type = "authorize_request";
          target_id = "";
          client_id = none;
          ip_address = env.ip;
          outcome = "failure";
          family_id = none;
        })
        w,
    reply (local_error (ref_of env.error_ref)),
  )

  -- The client, if it is active.
  abbrev pub known_client : Option Client → Step Client
  unfolding render_local_error
  known_client none = render_local_error
  known_client (some c) = give c

  -- The client and the redirect URI that it has registered.
  unfoldable pub load_client : Step Client
  unfolding render_local_error
  load_client w =
      if q.client_id == "" || q.redirect_uri == ""
      then render_local_error w
      else (known_client
              (get_by_id env.parse_uuid (env.fails client_query) q.client_id w.db.clients)
            >>= λ c. if validate_redirect_uri c q.redirect_uri then give c else render_local_error)
          w

  -- The response type, the state, PKCE and the scopes.
  unfoldable pub check_query : Client → Step (Unit {0})
  check_query c = do
    ensure (q.response_type == "code")
        (error_to q.redirect_uri q.state "unsupported_response_type" "only 'code' supported")
    ensure (not (q.state == "")) (invalid_request q.redirect_uri "" "state is required")
    ensure (not (q.code_challenge == "" || not (q.code_challenge_method == "S256")))
        (invalid_request q.redirect_uri q.state "PKCE S256 required")
    ensure (contains (scopes_of q) "openid")
        (error_to q.redirect_uri q.state "invalid_scope" "openid scope required")
    refuse_scope q (first_not_allowed (scopes_of q) c.allowed_scopes)
    ensure (not (has_char 32 q.prompt))
        (invalid_request q.redirect_uri q.state "combined prompt values not supported")
    ensure (q.prompt == "" || q.prompt == "none" || q.prompt == "login")
        (invalid_request q.redirect_uri q.state "unsupported prompt value")

  -- A session that is older than max_age; one that cannot be read is not.
  abbrev pub too_old :
      ℕ → World K → K.State × Result SessionError Session → World K × Outcome Reply Bool
  too_old max_age w (s, ok session) =
      (record w { kv = s }, next (ltb max_age (env.now - session.created_at)))
  too_old max_age w (s, err e) = (record w { kv = s }, next false)

  abbrev pub session_too_old : ℕ → Option String → Step Bool
  session_too_old max_age none w = (w, next false)
  session_too_old max_age (some token) w =
      too_old max_age w (get_session K env.session_ttl env.now token w.kv)

  -- max_age = 0 asks for nothing.
  unfoldable pub need_reauth : ℕ → Option User → Step Bool
  need_reauth max_age none = give true
  need_reauth max_age (some u) =
      if q.prompt == "login"
      then give true
      else (if ltb 0 max_age then session_too_old max_age env.cookie else give false)

  abbrev pub end_session : User → Option String → World K → World K
  end_session u none w = w
  end_session u (some token) w = record w { kv = (delete K env.session_ttl u.id token w.kv).0 }

  abbrev pub reauth_forced : User → Entry
  reauth_forced u = record {
    event_type = "session.reauth_forced";
    actor_id = some u.id;
    actor_email = u.email;
    target_type = "user";
    target_id = u.id;
    client_id = none;
    ip_address = env.ip;
    outcome = "success";
    family_id = none;
  }

  -- The session of a user who must log in again is deleted, whatever the outcome.
  abbrev pub log_out : Option User → World K → World K
  unfolding write_best_effort_audit
  log_out none w = w
  log_out (some u) w = write_best_effort_audit (reauth_forced u) (end_session u env.cookie w)

  -- The user who is logged in, and recently enough; else the login page.
  abbrev pub authenticated : Option User → Bool → Step User
  unfolding write_best_effort_audit
  authenticated (some u) false w = (w, next u)
  authenticated user _ w =
      if q.prompt == "none"
      then (
        w,
        reply (
            error_to q.redirect_uri q.state "login_required"
              "End-User authentication is required."),
      )
      else (log_out user w, reply (to_login (env.query_escape env.request_uri)))

  -- The row of the new code.
  abbrev pub code_row : Client → User → String → AuthCode
  code_row c u code = record {
    code_hash = env.sha256hex code;
    client_id = c.id;
    user_id = u.id;
    redirect_uri = q.redirect_uri;
    scopes = scopes_of q;
    nonce = nonce_of q.nonce;
    code_challenge = q.code_challenge;
    code_challenge_method = q.code_challenge_method;
    expires_at = env.now + auth_code_ttl;
    family_id = env.fresh_family;
    used = false;
  }

  abbrev pub authorize_succeeded : Client → User → Entry
  authorize_succeeded c u = record {
    event_type = "oidc.authorize.succeeded";
    actor_id = some u.id;
    actor_email = u.email;
    target_type = "client";
    target_id = c.id;
    client_id = none;
    ip_address = env.ip;
    outcome = "success";
    family_id = some env.fresh_family;
  }

  -- After the INSERT of the code, which fails where the hash is taken: the audit entry and the commit.
  abbrev pub stored :
      Client → User → String → Option (List AuthCode) → World K → World K × Outcome Reply ⊥
  stored c u code none w = (w, reply (server_error q.redirect_uri q.state "db insert"))
  stored c u code (some codes) w =
      if env.fails audit_insert
      then (w, reply (server_error q.redirect_uri q.state "audit"))
      else (if env.fails commit
          then (w, reply (server_error q.redirect_uri q.state "commit"))
          else (
            record w { db = with_entry (authorize_succeeded c u) (record w.db { codes = codes }) },
            reply (redirect_code q.redirect_uri (separator q.redirect_uri) code q.state),
          ))

  -- The transaction: the code and the audit entry together, or neither.
  unfoldable pub store_code : Client → User → String → World K → World K × Outcome Reply ⊥
  store_code c u code w =
      if env.fails begin_tx
      then (w, reply (server_error q.redirect_uri q.state "db begin"))
      else (if env.fails insert_code
          then (w, reply (server_error q.redirect_uri q.state "db insert"))
          else stored c u code (insert (code_row c u code) w.db.codes) w)

  unfoldable pub handle : Step ⊥
  handle = do
    c ← load_client
    check_query c
    max_age ←
        value_or (max_age_of q.max_age) (invalid_request q.redirect_uri q.state "max_age invalid")
    again ← need_reauth max_age env.current_user
    u ← authenticated env.current_user again
    code ← value_or env.fresh_code (server_error q.redirect_uri q.state "entropy")
    store_code c u code

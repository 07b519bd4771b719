-- ===== src/Clients/Creation.antt =====
-- internal/clients/store.go: the creation of a client, and the lookups that see disabled clients.
use text.Mathlib.TextPositions.{eq_refl}
use schlass.Base.{
  ℕ, ◌≡◌, refl, Bool, true, false, Option, none, some, List, ◌∷◌, String, if◌then◌else◌, Result, ok,
  err,
}
use schlass.Store.Tables.{Client}
use schlass.Store.Sql.{find}
use schlass.Clients.Lifecycle.{has_id}
use schlass.Clients.Store.{is_active_client, get_by_id, or_previous, verify_secret}

-- CreateClientParams
pub record CreateClientParams : Type 0 where
  pub name : String
  pub client_type : String
  pub secret_hash : String
  pub redirect_uris : List String
  pub allowed_grant_types : List String
  pub allowed_scopes : List String
  pub token_endpoint_auth_method : String
  pub created_by_user_id : Option String

-- The row of the INSERT; the id, the status and the times are the defaults of the table.
abbrev pub client_row : (now : ℕ) (id : String) → CreateClientParams → Client
client_row now id p = record {
  id = id;
  name = p.name;
  client_type = p.client_type;
  secret_hash = some p.secret_hash;
  secret_hash_previous = none;
  secret_previous_expires_at = none;
  redirect_uris = p.redirect_uris;
  allowed_grant_types = p.allowed_grant_types;
  allowed_scopes = p.allowed_scopes;
  token_endpoint_auth_method = p.token_endpoint_auth_method;
  status = "active";
  disabled_at = none;
  created_by_user_id = p.created_by_user_id;
  created_at = now;
  updated_at = now;
}

-- `broken` says that the query fails.
unfoldable pub create :
    (broken : Bool) (now : ℕ) (id : String)
    → CreateClientParams
    → List Client
    → List Client × Result (Unit {0}) Client
create broken now id p clients =
    if broken then (clients, err tt) else (client_row now id p ∷ clients, ok (client_row now id p))

-- GetByIDAny, and GetByIDForUpdate, which also locks the row.
unfoldable pub get_by_id_any :
    (String → Option String) → (broken : Bool) → String → List Client → Option Client
get_by_id_any parse_uuid broken id clients = elim (parse_uuid id) [
  | none ↦ none
  | some uid ↦ if broken then none else find (has_id uid) clients
]

-- A client that is created is found as it was asked for, by GetByID and by GetByIDAny.
get_by_id-create :
    (parse_uuid : String → Option String) (now : ℕ) (id text : String) (p : CreateClientParams)
    (clients : List Client)
    → parse_uuid text ≡ some id
    → (get_by_id parse_uuid false text (create false now id p clients).0
        ≡ some (client_row now id p))
      × (get_by_id_any parse_uuid false text (create false now id p clients).0
          ≡ some (client_row now id p))
unfolding create get_by_id get_by_id_any is_active_client find
get_by_id-create parse_uuid now id text p clients read =
    (rw (get_by_id, read, eq_refl id) refl, rw (get_by_id_any, read, eq_refl id) refl)

or_previous_closed : (answer : Result (Unit {0}) Bool) → or_previous answer (ok false) ≡ answer
or_previous_closed (ok true) = refl
or_previous_closed (ok false) = refl
or_previous_closed (err e) = refl

-- The secret of a client that is created is accepted exactly where it matches the hash.
verify_secret-create :
    (parse_uuid : String → Option String) (verify : String → String → Result (Unit {0}) Bool)
    (now later : ℕ) (id text secret : String) (p : CreateClientParams) (clients : List Client)
    → parse_uuid text ≡ some id
    → verify_secret parse_uuid verify false later text secret (create false now id p clients).0
      ≡ verify secret p.secret_hash
unfolding verify_secret
verify_secret-create parse_uuid verify now later id text secret p clients read =
    rw ((get_by_id-create parse_uuid now id text p clients read).0)
      (or_previous_closed (verify secret p.secret_hash))

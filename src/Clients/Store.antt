-- ===== src/Clients/Store.antt =====
-- internal/clients/store.go: reads of the table, the secret, the redirect URIs.
use schlass.Base.{
  ℕ, Bool, true, false, ◌&&◌, Option, none, some, List, String, ◌==◌, ltb, contains, if◌then◌else◌,
  Result, ok, err,
}
use schlass.Store.Tables.{Client}
use schlass.Store.Sql.{find}

-- scanClient and the condition of GetByID: an unknown and a disabled client look alike.
unfoldable pub is_active_client : String → Client → Bool
is_active_client uid c = c.id == uid && c.status == "active"

-- `parse_uuid` stands for uuid.Parse. `broken` says that the query fails. `none` is any error.
unfoldable pub get_by_id :
    (String → Option String) → (broken : Bool) → String → List Client → Option Client
get_by_id parse_uuid broken id clients = elim (parse_uuid id) [
  | none ↦ none
  | some uid ↦ if broken then none else find (is_active_client uid) clients
]

-- crypto.VerifyPassword against a hash that may be missing.
abbrev pub verifies :
    (String → String → Result (Unit {0}) Bool) → String → Option String → Result (Unit {0}) Bool
verifies verify secret none = ok false
verifies verify secret (some hash) = verify secret hash

-- c.SecretPreviousExpiresAt.After(now), false where it is nil.
abbrev pub is_open : Option ℕ → ℕ → Bool
is_open none now = false
is_open (some expires) now = ltb now expires

-- The second attempt of VerifySecret, with the secret before the last rotation.
abbrev pub verify_previous :
    (String → String → Result (Unit {0}) Bool) → String → Client → ℕ → Result (Unit {0}) Bool
verify_previous verify secret c now =
    if is_open c.secret_previous_expires_at now
    then verifies verify secret c.secret_hash_previous
    else ok false

abbrev pub or_previous : Result (Unit {0}) Bool → Result (Unit {0}) Bool → Result (Unit {0}) Bool
or_previous (err e) previous = err e
or_previous (ok true) previous = ok true
or_previous (ok false) previous = previous

abbrev pub verify_client :
    (String → String → Result (Unit {0}) Bool) → String → ℕ → Option Client → Result (Unit {0}) Bool
verify_client verify secret now none = err tt
verify_client verify secret now (some c) =
    or_previous (verifies verify secret c.secret_hash) (verify_previous verify secret c now)

unfoldable pub verify_secret :
    (String → Option String)
    → (String → String → Result (Unit {0}) Bool)
    → (broken : Bool) → (now : ℕ) → (id secret : String) → List Client
    → Result (Unit {0}) Bool
verify_secret parse_uuid verify broken now id secret clients =
    verify_client verify secret now (get_by_id parse_uuid broken id clients)

unfoldable pub validate_redirect_uri : Client → String → Bool
validate_redirect_uri c presented = contains c.redirect_uris presented

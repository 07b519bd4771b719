-- ===== src/SigningKeys.antt =====
-- internal/signingkeys/store.go and lifecycle.go: the signing keys, active, then retiring, then retired.
pub mod Sweep
use schlass.Base.{
  ℕ, ◌≡◌, Bool, true, false, ◌&&◌, ◌||◌, Option, none, some, List, [], ◌∷◌, ◌++◌, map, String, ◌==◌,
  ltb, if◌then◌else◌, Result, ok, err,
}
use schlass.Store.Tables.{Entry, Db, SigningKey}
use schlass.Store.Sql.{find, update_where, select_where}

-- The row of a new key; `id` and `now` are what the database gives.
abbrev pub new_key :
    (id : String) (now : ℕ) (public_pem private_encrypted status : String) → SigningKey
new_key id now public_pem private_encrypted status = record {
  id = id;
  algorithm = "RS256";
  public_key_pem = public_pem;
  private_key_encrypted = private_encrypted;
  status = status;
  created_at = now;
  rotated_at = none;
}

unfoldable pub insert :
    (id : String) (now : ℕ) (public_pem private_encrypted status : String)
    → List SigningKey
    → List SigningKey
insert id now public_pem private_encrypted status keys =
    new_key id now public_pem private_encrypted status ∷ keys

abbrev pub is_publishable : SigningKey → Bool
is_publishable k = k.status == "active" || k.status == "retiring"

-- ORDER BY CASE status WHEN 'active' THEN 0 ELSE 1 END, created_at ASC
abbrev pub goes_before : SigningKey → SigningKey → Bool
goes_before a b =
    if a.status == "active"
    then (if b.status == "active" then ltb a.created_at b.created_at else true)
    else (if b.status == "active" then false else ltb a.created_at b.created_at)

unfoldable pub insert_ordered : SigningKey → List SigningKey → List SigningKey
insert_ordered k [] = k ∷ []
insert_ordered k (j ∷ js) =
    let rest = insert_ordered k js in if goes_before j k then j ∷ rest else k ∷ j ∷ js

unfoldable pub order : List SigningKey → List SigningKey
order [] = []
order (k ∷ ks) = insert_ordered k (order ks)

unfoldable pub list_publishable : List SigningKey → List SigningKey
list_publishable keys = order (select_where is_publishable keys)

unfoldable pub get_active : List SigningKey → Option SigningKey
get_active keys = find (λ k. k.status == "active") keys

unfoldable pub mark_retiring : (id : String) → (now : ℕ) → List SigningKey → List SigningKey
mark_retiring id now keys =
    update_where (λ k. k.id == id && k.status == "active")
      (λ k. record k { status = "retiring"; rotated_at = some now }) keys

abbrev pub retire : SigningKey → SigningKey
retire k = record k { status = "retired" }

unfoldable pub mark_retired : (id : String) → List SigningKey → List SigningKey
mark_retired id keys = update_where (λ k. k.id == id && k.status == "retiring") retire keys

-- rotated_at < $1, false where it is NULL.
abbrev pub rotated_before : ℕ → Option ℕ → Bool
rotated_before cutoff none = false
rotated_before cutoff (some t) = ltb t cutoff

abbrev pub is_retirable : ℕ → SigningKey → Bool
is_retirable cutoff k = k.status == "retiring" && rotated_before cutoff k.rotated_at

unfoldable pub list_retirable : (cutoff : ℕ) → List SigningKey → List String
list_retirable cutoff keys = map (λ k. k.id) (select_where (is_retirable cutoff) keys)

abbrev pub key_event : (event id : String) → Entry
key_event event id = record {
  event_type = event;
  actor_id = none;
  actor_email = "";
  target_type = "signing_key";
  target_id = id;
  client_id = none;
  ip_address = "";
  outcome = "success";
  family_id = none;
}

-- The loop of RetireSweep: a transaction for each key, and the first failure ends the sweep.
unfoldable pub sweep :
    (fails : String → Bool) → List String → Db → Db × Result (Unit {0}) (Unit {0})
sweep fails [] db = (db, ok tt)
sweep fails (id ∷ ids) db =
    let rest = sweep fails ids (record db {
      keys = mark_retired id db.keys;
      audit_logs = key_event "oidc.signing_key.retired" id ∷ db.audit_logs;
    }) in
    if fails id then (db, err tt) else rest

-- `list_fails` says that the query fails, `fails id` that a call of the transaction for `id` does.
unfoldable pub retire_sweep :
    (list_fails : Bool) (fails : String → Bool) (cutoff : ℕ)
    → Db
    → Db × Result (Unit {0}) (Unit {0})
retire_sweep list_fails fails cutoff db =
    if list_fails then (db, err tt) else sweep fails (list_retirable cutoff db.keys) db

-- Bootstrap with the key pair that was made and wrapped, `none` where that fails.
unfoldable pub bootstrap :
    (active_fails tx_fails : Bool) (pair : Option (String × String)) (id : String) (now : ℕ)
    → Db
    → Db × Result (Unit {0}) (Unit {0})
bootstrap active_fails tx_fails pair id now db =
    if active_fails then (db, err tt) else elim (get_active db.keys) [
      | some k ↦ (db, ok tt)
      | none ↦ elim pair [
        | none ↦ (db, err tt)
        | some (public_pem, wrapped) ↦ if tx_fails then (db, err tt) else (
          record db {
            keys = insert id now public_pem wrapped "active" db.keys;
            audit_logs = key_event "oidc.signing_key.generated" id ∷ db.audit_logs;
          },
          ok tt,
        )
      ]
    ]

-- ===== src/Clients/Lifecycle.antt =====
-- internal/clients/store.go: the writes of the table.
use schlass.Base.{
  ℕ, ◌+◌, ◌≡◌, refl, ap, ◌∙◌, inl, inr, Bool, true, false, not, ◌&&◌, Option, none, some, List, [],
  ◌∷◌, String, ◌==◌, ltb, nat_eq, if◌then◌else◌, Result, ok, err, arith, Bool-cases, Option-cases,
}
use schlass.Store.Tables.{Client}
use schlass.Store.Sql.{find, update_where, count_where, select_where, find-none, update_where-All}
use schlass.Clients.Lookup.{get_by_id_malformed, get_by_id_read}
use schlass.Clients.Store.{is_active_client, get_by_id, verify_secret}

-- UpdateClientPatch
pub record UpdateClientPatch : Type 0 where
  pub name : Option String
  pub redirect_uris : Option (List String)
  pub allowed_scopes : Option (List String)
  pub allowed_grant_types : Option (List String)

abbrev pub coalesce : {A : Type 0} → Option A → A → A
coalesce none old = old
coalesce (some a) old = a

abbrev pub patched : (now : ℕ) → UpdateClientPatch → Client → Client
patched now p c = record c {
  name = coalesce p.name c.name;
  redirect_uris = coalesce p.redirect_uris c.redirect_uris;
  allowed_grant_types = coalesce p.allowed_grant_types c.allowed_grant_types;
  allowed_scopes = coalesce p.allowed_scopes c.allowed_scopes;
  updated_at = now;
}

abbrev pub has_id : String → Client → Bool
has_id uid c = c.id == uid

-- UPDATE … RETURNING: the row that was updated; no row is ErrClientNotFound.
abbrev pub returning : (Client → Bool) → (Client → Client) → List Client → Result (Unit {0}) Client
returning p f clients = elim (find p clients) [ none ↦ err tt | some c ↦ ok (f c) ]

-- The effect on the table, where the id is one.
abbrev pub at_id : {A : Type 0} → Option String → A → (String → A) → A
at_id none missing f = missing
at_id (some uid) missing f = f uid

unfoldable pub update_fields :
    (String → Option String)
    → (now : ℕ) (id : String) → UpdateClientPatch
    → List Client
    → List Client × Result (Unit {0}) Client
update_fields parse_uuid now id p clients =
    at_id (parse_uuid id) (clients, err tt)
      λ uid. (
        update_where (has_id uid) (patched now p) clients,
        returning (has_id uid) (patched now p) clients,
      )

-- The current hash goes to the previous slot, until now + ttl.
abbrev pub rotated : (now ttl : ℕ) (new_hash : String) → Client → Client
rotated now ttl new_hash c = record c {
  secret_hash = some new_hash;
  secret_hash_previous = c.secret_hash;
  secret_previous_expires_at = some (now + ttl);
  updated_at = now;
}

unfoldable pub rotate_secret :
    (String → Option String)
    → (now : ℕ) (id new_hash : String) (ttl : ℕ) → List Client
    → List Client × Result (Unit {0}) Client
rotate_secret parse_uuid now id new_hash ttl clients =
    at_id (parse_uuid id) (clients, err tt)
      λ uid. (
        update_where (has_id uid) (rotated now ttl new_hash) clients,
        returning (has_id uid) (rotated now ttl new_hash) clients,
      )

-- No row affected is ErrClientNotFound.
abbrev pub affected : ℕ → Result (Unit {0}) (Unit {0})
affected n = if nat_eq n 0 then err tt else ok tt

abbrev pub disabled : ℕ → Client → Client
disabled now c = record c { status = "disabled"; disabled_at = some now; updated_at = now }

unfoldable pub disable :
    (String → Option String)
    → (now : ℕ) (id : String) → List Client
    → List Client × Result (Unit {0}) (Unit {0})
disable parse_uuid now id clients =
    at_id (parse_uuid id) (clients, err tt)
      λ uid. (
        update_where (is_active_client uid) (disabled now) clients,
        affected (count_where (is_active_client uid) clients),
      )

abbrev pub is_disabled_client : String → Client → Bool
is_disabled_client uid c = c.id == uid && c.status == "disabled"

abbrev pub enabled : ℕ → Client → Client
enabled now c = record c { status = "active"; disabled_at = none; updated_at = now }

unfoldable pub enable :
    (String → Option String)
    → (now : ℕ) (id : String) → List Client
    → List Client × Result (Unit {0}) (Unit {0})
enable parse_uuid now id clients =
    at_id (parse_uuid id) (clients, err tt)
      λ uid. (
        update_where (is_disabled_client uid) (enabled now) clients,
        affected (count_where (is_disabled_client uid) clients),
      )

unfoldable pub delete :
    (String → Option String)
    → (id : String) → List Client
    → List Client × Result (Unit {0}) (Unit {0})
delete parse_uuid id clients =
    at_id (parse_uuid id) (clients, err tt)
      λ uid. (
        select_where (λ c. not (has_id uid c)) clients,
        affected (count_where (has_id uid) clients),
      )

disabled_inactive :
    (now : ℕ) (uid : String) (c : Client)
    → is_active_client uid (if is_active_client uid c then disabled now c else c) ≡ false
unfolding is_active_client
disabled_inactive now uid c = elim (Bool-cases (c.id == uid && c.status == "active")) [
  | inl on ↦ rw on (ground arith)
  | inr off ↦ rw off off
]

deleted_gone :
    (uid : String) (clients : List Client)
    → find (is_active_client uid) (select_where (λ c. not (has_id uid c)) clients) ≡ none
unfolding find select_where is_active_client
deleted_gone uid [] = refl
deleted_gone uid (c ∷ clients) = elim (Bool-cases (c.id == uid)) [
  | inl mine ↦ rw mine (deleted_gone uid clients)
  | inr other ↦ rw (other, other) (deleted_gone uid clients)
]

find-disabled :
    (now : ℕ) (uid : String) (clients : List Client)
    → find (is_active_client uid) (update_where (is_active_client uid) (disabled now) clients)
      ≡ none
find-disabled now uid clients =
    find-none (is_active_client uid) (update_where (is_active_client uid) (disabled now) clients) (
      update_where-All (is_active_client uid) (is_active_client uid) (disabled now) clients
        (disabled_inactive now uid))

none_either : (b : Bool) (o : Option Client) → o ≡ none → (if b then none else o) ≡ none
none_either true o e = refl
none_either false o e = e

abbrev answer : Bool → Result (Unit {0}) Bool
answer b = ok b

ok_of_test : (b : Bool) → (if b then answer true else answer false) ≡ answer b
ok_of_test true = refl
ok_of_test false = refl

disable_read :
    (parse_uuid : String → Option String) (now : ℕ) (id uid : String) (clients : List Client)
    → parse_uuid id ≡ some uid
    → (disable parse_uuid now id clients).0
      ≡ update_where (is_active_client uid) (disabled now) clients
unfolding disable
disable_read parse_uuid now id uid clients read = rw (read, disable) refl

delete_read :
    (parse_uuid : String → Option String) (id uid : String) (clients : List Client)
    → parse_uuid id ≡ some uid
    → (delete parse_uuid id clients).0 ≡ select_where (λ c. not (has_id uid c)) clients
unfolding delete
delete_read parse_uuid id uid clients read = rw (read, delete) refl

-- A client that was disabled or deleted, whether a row was there or not, is not found by GetByID, under the same
-- reading of ids.
pub get_by_id-gone :
    (parse_uuid : String → Option String) (broken : Bool) (now : ℕ) (id : String)
    (clients : List Client)
    → (get_by_id parse_uuid broken id (disable parse_uuid now id clients).0 ≡ none)
      × (get_by_id parse_uuid broken id (delete parse_uuid id clients).0 ≡ none)
get_by_id-gone parse_uuid broken now id clients = elim (Option-cases (parse_uuid id)) [
  | inl malformed ↦ (
    get_by_id_malformed parse_uuid broken id _ malformed,
    get_by_id_malformed parse_uuid broken id _ malformed,
  )
  | inr (uid, read) ↦ (
    ap (get_by_id parse_uuid broken id) (disable_read parse_uuid now id uid clients read)
        ∙ get_by_id_read parse_uuid broken id _ uid read
        ∙ none_either broken _ (find-disabled now uid clients),
    ap (get_by_id parse_uuid broken id) (delete_read parse_uuid id uid clients read)
        ∙ get_by_id_read parse_uuid broken id _ uid read
        ∙ none_either broken _ (deleted_gone uid clients),
  )
]

find-rotated :
    (now ttl : ℕ) (uid new_hash : String) (clients : List Client) (c : Client)
    → find (is_active_client uid) clients ≡ some c
    → find (is_active_client uid) (update_where (has_id uid) (rotated now ttl new_hash) clients)
      ≡ some (rotated now ttl new_hash c)
unfolding find update_where is_active_client
find-rotated now ttl uid new_hash [] c e = cc
find-rotated now ttl uid new_hash (d ∷ clients) c e = elim (Bool-cases (d.id == uid)) [
  | inl mine ↦ elim (Bool-cases (d.status == "active")) [
    | inl on ↦
        let is : d ≡ c = let it = rw (mine, on) at e in ground arith in
        rw (mine, mine, on) (ap (λ x. some (rotated now ttl new_hash x)) is)
    | inr off ↦
        rw (mine, mine, off) (find-rotated now ttl uid new_hash clients c (rw (mine, off) at e))
  ]
  | inr other ↦ rw (other, other) (find-rotated now ttl uid new_hash clients c (rw other at e))
]

-- After a client's secret was rotated, a secret that matches the old hash and not the new one is accepted until the
-- overlap is over, and no longer.
pub verify_secret-rotate_secret :
    (parse_uuid : String → Option String) (verify : String → String → Result (Unit {0}) Bool)
    (now ttl later : ℕ) (id uid secret old_hash new_hash : String) (clients : List Client)
    (c : Client)
    → parse_uuid id ≡ some uid
    → find (is_active_client uid) clients ≡ some c
    → c.secret_hash ≡ some old_hash
    → verify secret old_hash ≡ ok true
    → verify secret new_hash ≡ ok false
    → verify_secret parse_uuid verify false later id secret
        (rotate_secret parse_uuid now id new_hash ttl clients).0
      ≡ ok (ltb later (now + ttl))
unfolding verify_secret rotate_secret
verify_secret-rotate_secret parse_uuid verify now ttl later id uid secret old_hash new_hash clients
      c read there old old_ok new_no =
    let found =
      get_by_id_read parse_uuid false id
        (update_where (has_id uid) (rotated now ttl new_hash) clients) uid read
      ∙ find-rotated now ttl uid new_hash clients c there in
    rw (read, found, new_no, old, old_ok) (ok_of_test (ltb later (now + ttl)))

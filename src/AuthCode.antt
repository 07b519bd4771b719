-- ===== src/AuthCode.antt =====
-- internal/authserver/authcode_store.go: the authorization codes, stored under their hash.
pub mod SingleUse
pub mod Refinement
use schlass.Base.{
  ℕ, ◌≡◌, Bool, true, false, not, ◌&&◌, Option, none, some, List, ◌∷◌, String, ◌==◌, ltb,
  if◌then◌else◌,
}
use schlass.Store.Tables.{AuthCode}
use schlass.Store.Sql.{find, update_where}

-- A row of this hash, used or not.
abbrev pub has_hash : String → AuthCode → Bool
has_hash hash r = r.code_hash == hash

-- The table after the INSERT of a row; `taken` is the row that has its primary key.
abbrev pub insert_where :
    AuthCode → List AuthCode → (taken : Option AuthCode) → Option (List AuthCode)
insert_where row codes none = some (record row { used = false } ∷ codes)
insert_where row codes (some r) = none

-- INSERT, in which the column `used` takes its default; `none` is the error of a code_hash that is there already.
unfoldable pub insert : AuthCode → List AuthCode → Option (List AuthCode)
insert row codes = insert_where row codes (find (has_hash row.code_hash) codes)

-- WHERE code_hash = $1 AND NOT used AND expires_at > now()
unfoldable pub is_consumable : ℕ → String → AuthCode → Bool
is_consumable now hash r = r.code_hash == hash && (not r.used && ltb now r.expires_at)

-- SET used = true
unfoldable pub mark_used : AuthCode → AuthCode
mark_used r = record r { used = true }

-- The table after the UPDATE and the row that it returns; `none` is ErrAuthCodeAlreadyUsed.
unfoldable pub consume_once : ℕ → String → List AuthCode → List AuthCode × Option AuthCode
consume_once now hash codes =
    (update_where (is_consumable now hash) mark_used codes, find (is_consumable now hash) codes)

unfoldable pub lookup_family_by_code_hash : String → List AuthCode → Option String
lookup_family_by_code_hash hash codes = elim (find (has_hash hash) codes) [
  | none ↦ none
  | some r ↦ some r.family_id
]

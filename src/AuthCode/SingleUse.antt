-- ===== src/AuthCode/SingleUse.antt =====
-- An authorization code is consumed at most once.
use schlass.Base.{
  ℕ, ◌≤◌, ◌<◌, ◌≡◌, true, false, none, some, List, String, arith, eq_iff, if◌then◌else◌,
}
use schlass.Store.Tables.{AuthCode}
use schlass.Store.Sql.{find-update_where, update_where, find_meets, find-none, update_where-All}
use schlass.AuthCode.{is_consumable, mark_used, consume_once}

consumed_is_dead :
    (now later : ℕ) (hash : String)
    → now ≤ later
    → (r : AuthCode)
    → is_consumable later hash (if is_consumable now hash r then mark_used r else r) ≡ false
unfolding is_consumable mark_used
consumed_is_dead now later hash h r = ground arith

-- After an attempt to consume a code, whatever it returned, every attempt at the same time or later
-- on the table that it left is refused.
pub consume_once-consume_once :
    (now later : ℕ) (hash : String) (codes : List AuthCode)
    → now ≤ later
    → (consume_once later hash (consume_once now hash codes).0).1 ≡ none
unfolding consume_once
consume_once-consume_once now later hash codes h =
    find-none (is_consumable later hash) (update_where (is_consumable now hash) mark_used codes) (
      update_where-All (is_consumable now hash) (is_consumable later hash) mark_used codes
        (consumed_is_dead now later hash h))

-- A code that is consumed carries the hash presented, was unused and had not expired.
pub consume_once_row :
    (now : ℕ) (hash : String) (codes : List AuthCode) {row : AuthCode}
    → (consume_once now hash codes).1 ≡ some row
    → (row.code_hash ≡ hash) × (row.used ≡ false) × (now < row.expires_at)
unfolding consume_once is_consumable
consume_once_row now hash codes {row} e =
    let met : is_consumable now hash row ≡ true = find_meets (is_consumable now hash) codes e in
    ground (arith, met, eq_iff row.code_hash hash)

-- No row of the table can be consumed under the hash, at `now` or later.
abbrev pub IsSpent : ℕ → String → List AuthCode → Type 0
IsSpent now hash codes = (later : ℕ) → now ≤ later → (consume_once later hash codes).1 ≡ none

marked_is_dead :
    (now : ℕ) (hash : String) (r : AuthCode) → is_consumable now hash (mark_used r) ≡ false
unfolding is_consumable mark_used
marked_is_dead now hash r = ground arith

-- A code that is spent stays spent, whichever codes are consumed and when.
pub consume_once-IsSpent :
    (now : ℕ) (hash : String) (codes : List AuthCode) (now' : ℕ) (hash' : String)
    → IsSpent now hash codes
    → IsSpent now hash (consume_once now' hash' codes).0
unfolding consume_once
consume_once-IsSpent now hash codes now' hash' spent later h =
    find-update_where (is_consumable later hash) (is_consumable now' hash') mark_used codes
      (marked_is_dead later hash) (spent later h)

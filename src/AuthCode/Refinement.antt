-- ===== src/AuthCode/Refinement.antt =====
-- The table of authorization codes seen as a store that gives each code out once.
use schlass.Base.{
  Bool, sym, ◌||◌, Option-cases, ℕ, ◌≤◌, ◌≡◌, refl, ◌∙◌, ap, true, false, Bool-cases, inl, inr,
  Option, none, some, List, [], ◌∷◌, String, ◌==◌, ◌&&◌, ltb, if◌then◌else◌, arith, eq_iff,
}
use schlass.Store.Tables.{AuthCode}
use schlass.Store.Sql.{update_where, find, find-update_where_other}
use schlass.AuthCode.{has_hash, insert, is_consumable, mark_used, consume_once}
use schlass.AuthCode.SingleUse.{consume_once-consume_once}

-- The two operations, in the order in which the requests come.
pub data Operation : Type 0 where
  issue : (row : AuthCode) → Operation
  redeem : (now : ℕ) (hash : String) → Operation

-- A code that is issued is unused; `none` is an error of either operation.
abbrev pub unused : AuthCode → AuthCode
unused row = record row { used = false }

-- The answer to an INSERT and the table that it leaves.
abbrev pub inserted :
    AuthCode → List AuthCode → Option (List AuthCode) → List AuthCode × Option AuthCode
inserted row codes none = (codes, none)
inserted row codes (some rows) = (rows, some (unused row))

-- The answers of the table to a sequence of operations.
unfoldable pub answers : List Operation → List AuthCode → List (Option AuthCode)
answers [] codes = []
answers (issue row ∷ ops) codes =
    (inserted row codes (insert row codes)).1
    ∷ answers ops (inserted row codes (insert row codes)).0
answers (redeem now hash ∷ ops) codes =
    (consume_once now hash codes).1 ∷ answers ops (consume_once now hash codes).0

-- What the store promises: the hashes that were issued, and for each time and hash the code that would be given out.
pub record Promise : Type 0 where
  pub known : String → Bool
  pub held : ℕ → String → Option AuthCode

abbrev pub issued : AuthCode → Promise → Promise
issued row p = record {
  known = λ hash. row.code_hash == hash || p.known hash;
  held = λ now hash.
      if row.code_hash == hash && ltb now row.expires_at
      then some (unused row)
      else p.held now hash;
}

abbrev pub redeemed : String → Promise → Promise
redeemed hash p = record p { held = λ now hash'. if hash' == hash then none else p.held now hash' }

-- The answers that are promised: no hash is issued twice.
unfoldable pub promised : List Operation → Promise → List (Option AuthCode)
promised [] p = []
promised (issue row ∷ ops) p =
    let refused = none ∷ promised ops p in
    let accepted = some (unused row) ∷ promised ops (issued row p) in
    if p.known row.code_hash then refused else accepted
promised (redeem now hash ∷ ops) p = p.held now hash ∷ promised ops (redeemed hash p)

abbrev pub nothing_yet : Promise
nothing_yet = record { known = λ hash. false; held = λ now hash. none }

-- The clock of the database does not run backwards.
unfoldable pub IsOrdered : ℕ → List Operation → Type 0
IsOrdered start [] = Unit {0}
IsOrdered start (issue row ∷ ops) = IsOrdered start ops
IsOrdered start (redeem now hash ∷ ops) = (start ≤ now) × IsOrdered now ops

abbrev is_taken : Option AuthCode → Bool
is_taken none = false
is_taken (some r) = true

-- From `start` on, the table gives out what is promised, and it has the hashes that were issued.
abbrev Keeps : ℕ → List AuthCode → Promise → Type 0
Keeps start codes p =
    ((now : ℕ) → start ≤ now → (hash : String) → (consume_once now hash codes).1 ≡ p.held now hash)
    × ((hash : String) → is_taken (find (has_hash hash) codes) ≡ p.known hash)

Keeps-unused :
    (start : ℕ) (row : AuthCode) (codes : List AuthCode) (p : Promise)
    → Keeps start codes p
    → Keeps start (unused row ∷ codes) (issued row p)
unfolding consume_once find is_consumable
Keeps-unused start row codes p (gives, names) = (
  λ now later hash.
      ap (λ o. if row.code_hash == hash && ltb now row.expires_at then some (unused row) else o)
        (gives now later hash),
  λ hash. elim (Bool-cases (row.code_hash == hash)) [
    | inl mine ↦ rw mine refl
    | inr other ↦ rw other (names hash)
  ],
)

find_taken :
    (now : ℕ) (hash other : String) (codes : List AuthCode)
    → is_taken (find (has_hash other) (update_where (is_consumable now hash) mark_used codes))
      ≡ is_taken (find (has_hash other) codes)
unfolding find update_where mark_used
find_taken now hash other [] = refl
find_taken now hash other (r ∷ rs) =
    ground (arith, Bool-cases (is_consumable now hash r), find_taken now hash other rs)

other_hash :
    (now later : ℕ) (hash other : String)
    → (other == hash) ≡ false
    → (r : AuthCode) → is_consumable now hash r ≡ true
    → (is_consumable later other r ≡ false) × (is_consumable later other (mark_used r) ≡ false)
unfolding is_consumable mark_used
other_hash now later hash other differ r met =
    ground (arith, eq_iff r.code_hash hash, eq_iff r.code_hash other, eq_iff other hash)

Keeps-consume_once :
    (start now : ℕ) (hash : String) (codes : List AuthCode) (p : Promise)
    → start ≤ now
    → Keeps start codes p
    → Keeps now (consume_once now hash codes).0 (redeemed hash p)
unfolding consume_once
Keeps-consume_once start now hash codes p h (gives, names) = (
  λ later after other. elim (Bool-cases (other == hash)) [
    | inl same ↦
        let is : other ≡ hash = (eq_iff other hash).0 same in
        rw (same, is) (consume_once-consume_once now later hash codes after)
    | inr differ ↦ rw differ (
        find-update_where_other (is_consumable later other) (is_consumable now hash) mark_used codes
          (other_hash now later hash other differ)
        ∙ gives later (omega arith) other)
  ],
  λ other. find_taken now hash other codes ∙ names other,
)

answers_keep :
    (start : ℕ) (ops : List Operation) (codes : List AuthCode) (p : Promise)
    → IsOrdered start ops
    → Keeps start codes p
    → answers ops codes ≡ promised ops p
unfolding answers promised IsOrdered insert
answers_keep start [] codes p ordered keeps = refl
answers_keep start (issue row ∷ ops) codes p ordered keeps =
    elim (Option-cases (find (has_hash row.code_hash) codes)) [
      | inl free ↦
          let new : p.known row.code_hash ≡ false = sym (rw free at (keeps.1 row.code_hash)) in
          rw (free, new)
            (ap (λ rest. some (unused row) ∷ rest)
              (answers_keep start ops (unused row ∷ codes) (issued row p) ordered
                (Keeps-unused start row codes p keeps)))
      | inr (r, taken) ↦
          let old : p.known row.code_hash ≡ true = sym (rw taken at (keeps.1 row.code_hash)) in
          rw (taken, old) (ap (λ rest. none ∷ rest) (answers_keep start ops codes p ordered keeps))
    ]
answers_keep start (redeem now hash ∷ ops) codes p (h, ordered) keeps =
    rw
      (
        keeps.0 now h hash,
        answers_keep now ops (consume_once now hash codes).0 (redeemed hash p) ordered
            (Keeps-consume_once start now hash codes p h keeps),
      )
      refl

-- A table that starts empty answers as promised: for any list of codes issued and attempts to redeem whose times do
-- not decrease, a code is accepted only if its hash was never issued before, and an attempt is given the code of that
-- hash, if it has not expired and there was no attempt at that hash since it was issued.
pub answers-promised :
    (ops : List Operation) → IsOrdered 0 ops → answers ops [] ≡ promised ops nothing_yet
unfolding consume_once find
answers-promised ops ordered =
    answers_keep 0 ops [] nothing_yet ordered (λ now later hash. refl, λ hash. refl)

-- ===== src/SigningKeys/Sweep.antt =====
-- What the sweep retires, and what is published.
use schlass.Base.{
  ℕ, ◌≤◌, ltb, ◌≡◌, refl, ◌∙◌, inl, inr, Bool, true, false, ◌&&◌, Option, none, some, List, [], ◌∷◌,
  String, ◌==◌, if◌then◌else◌, ok, All, In, arith, eq_iff, Bool-cases, Option-cases,
}
use schlass.Store.Tables.{Db, SigningKey}
use schlass.Store.Sql.{find, update_where, select_where}
use schlass.SigningKeys.{
  get_active, new_key, insert, retire, mark_retired, is_retirable, list_retirable, sweep,
  retire_sweep, bootstrap,
}

-- The keys that are still to be retired are named by the list.
abbrev AreListed : ℕ → List String → List SigningKey → Type 0
AreListed cutoff ids keys = All (λ k. is_retirable cutoff k ≡ true → In k.id ids) keys

abbrev Ids : List String → List String → Type 0
Ids ids more = (x : String) → In x ids → In x more

AreListed-weaken :
    (cutoff : ℕ) (ids more : List String) (keys : List SigningKey)
    → Ids ids more
    → AreListed cutoff ids keys
    → AreListed cutoff more keys
AreListed-weaken cutoff ids more [] sub h = tt
AreListed-weaken cutoff ids more (k ∷ keys) sub (h, hs) =
    (λ r. sub k.id (h r), AreListed-weaken cutoff ids more keys sub hs)

list_retirable_due :
    (cutoff : ℕ) (k : SigningKey) (keys : List SigningKey)
    → is_retirable cutoff k ≡ true
    → list_retirable cutoff (k ∷ keys) ≡ k.id ∷ list_retirable cutoff keys
unfolding list_retirable select_where
list_retirable_due cutoff k keys due = rw due refl

list_retirable_not_due :
    (cutoff : ℕ) (k : SigningKey) (keys : List SigningKey)
    → is_retirable cutoff k ≡ false
    → list_retirable cutoff (k ∷ keys) ≡ list_retirable cutoff keys
unfolding list_retirable select_where
list_retirable_not_due cutoff k keys not_due = rw not_due refl

list_retirable-AreListed :
    (cutoff : ℕ) (keys : List SigningKey) → AreListed cutoff (list_retirable cutoff keys) keys
list_retirable-AreListed cutoff [] = tt
list_retirable-AreListed cutoff (k ∷ keys) = elim (Bool-cases (is_retirable cutoff k)) [
  | inl due ↦ (
    λ _. rw (list_retirable_due cutoff k keys due) (inl refl),
    AreListed-weaken cutoff (list_retirable cutoff keys) (list_retirable cutoff (k ∷ keys)) keys
        (λ x h. rw (list_retirable_due cutoff k keys due) (inr h))
        (list_retirable-AreListed cutoff keys),
  )
  | inr not_due ↦ (
    λ r. let never = rw not_due at r in cc,
    AreListed-weaken cutoff (list_retirable cutoff keys) (list_retirable cutoff (k ∷ keys)) keys
        (λ x h. rw (list_retirable_not_due cutoff k keys not_due) h)
        (list_retirable-AreListed cutoff keys),
  )
]

-- The condition of MarkRetired.
abbrev is_retiring : String → SigningKey → Bool
is_retiring id k = k.id == id && k.status == "retiring"

retired_In :
    (cutoff : ℕ) (id : String) (ids : List String) (k : SigningKey) (b : Bool)
    → is_retiring id k ≡ b
    → (is_retirable cutoff k ≡ true → In k.id (id ∷ ids))
    → is_retirable cutoff (if b then retire k else k) ≡ true
    → In (if b then retire k else k).id ids
retired_In cutoff id ids k true e h due = cc
retired_In cutoff id ids k false e h due = elim (h due) [
  | inl same ↦ absurd (let it = eq_iff k.id id in ground arith)
  | inr later ↦ later
]

mark_retired-AreListed :
    (cutoff : ℕ) (id : String) (ids : List String) (keys : List SigningKey)
    → AreListed cutoff (id ∷ ids) keys
    → AreListed cutoff ids (mark_retired id keys)
unfolding mark_retired update_where
mark_retired-AreListed cutoff id ids [] h = tt
mark_retired-AreListed cutoff id ids (k ∷ keys) (h, hs) = (
  retired_In cutoff id ids k (is_retiring id k) refl h,
  mark_retired-AreListed cutoff id ids keys hs,
)

no_retirable :
    (cutoff : ℕ) (keys : List SigningKey)
    → AreListed cutoff [] keys
    → list_retirable cutoff keys ≡ []
unfolding list_retirable select_where
no_retirable cutoff [] h = refl
no_retirable cutoff (k ∷ keys) (h, hs) = elim (Bool-cases (is_retirable cutoff k)) [
  | inl due ↦ elim (h due) [ ]
  | inr not_due ↦ rw not_due (no_retirable cutoff keys hs)
]

sweep_ok :
    (fails : String → Bool) (cutoff : ℕ) (ids : List String) (db : Db)
    → AreListed cutoff ids db.keys
    → (sweep fails ids db).1 ≡ ok tt
    → list_retirable cutoff (sweep fails ids db).0.keys ≡ []
unfolding sweep
sweep_ok fails cutoff [] db h e = no_retirable cutoff db.keys h
sweep_ok fails cutoff (id ∷ ids) db h e = elim (Bool-cases (fails id)) [
  | inl broken ↦ let never = rw broken at e in cc
  | inr fine ↦
      rw fine (
        sweep_ok fails cutoff ids _ (mark_retired-AreListed cutoff id ids db.keys h) (rw fine at e))
]

sweep_leaves_none :
    (list_fails : Bool) (fails : String → Bool) (cutoff : ℕ) (db : Db)
    → (retire_sweep list_fails fails cutoff db).1 ≡ ok tt
    → list_retirable cutoff (retire_sweep list_fails fails cutoff db).0.keys ≡ []
unfolding retire_sweep
sweep_leaves_none true fails cutoff db e = cc
sweep_leaves_none false fails cutoff db e =
    sweep_ok fails cutoff (list_retirable cutoff db.keys) db
      (list_retirable-AreListed cutoff db.keys) e

-- A key that is left retiring where nothing is retirable was not rotated before the cutoff.
not_before_cutoff :
    (cutoff t : ℕ) (k : SigningKey) (keys : List SigningKey)
    → list_retirable cutoff keys ≡ []
    → In k keys
    → k.status ≡ "retiring"
    → k.rotated_at ≡ some t
    → cutoff ≤ t
unfolding list_retirable select_where
not_before_cutoff cutoff t k [] none_left there retiring rotated = elim there [ ]
not_before_cutoff cutoff t k (j ∷ keys) none_left (inl here) retiring rotated =
    elim (Bool-cases (ltb t cutoff)) [
      | inl early ↦
          let due : is_retirable cutoff j ≡ true = rw (here, retiring, rotated, early) refl in
          let never = rw due at none_left in cc
      | inr late ↦ ground arith
    ]
not_before_cutoff cutoff t k (j ∷ keys) none_left (inr there) retiring rotated =
    elim (Bool-cases (is_retirable cutoff j)) [
      | inl due ↦ let never = rw due at none_left in cc
      | inr other ↦ not_before_cutoff cutoff t k keys (rw other at none_left) there retiring rotated
    ]

-- After a sweep that reports no error, every key that is still retiring, with a time of rotation, was rotated at the cutoff
-- or later.
pub retire_sweep_complete :
    (list_fails : Bool) (fails : String → Bool) (cutoff t : ℕ) (db : Db) (k : SigningKey)
    → (retire_sweep list_fails fails cutoff db).1 ≡ ok tt
    → In k (retire_sweep list_fails fails cutoff db).0.keys
    → k.status ≡ "retiring"
    → k.rotated_at ≡ some t
    → cutoff ≤ t
retire_sweep_complete list_fails fails cutoff t db k e there retiring rotated =
    not_before_cutoff cutoff t k (retire_sweep list_fails fails cutoff db).0.keys
      (sweep_leaves_none list_fails fails cutoff db e) there retiring rotated

mark_retired-active :
    (id : String) (keys : List SigningKey) → get_active (mark_retired id keys) ≡ get_active keys
unfolding get_active mark_retired update_where find
mark_retired-active id [] = refl
mark_retired-active id (k ∷ keys) = elim (Bool-cases (is_retiring id k)) [
  | inl it ↦
      let retiring : k.status ≡ "retiring" = let e = eq_iff k.status "retiring" in ground arith in
      rw (it, retiring) (mark_retired-active id keys)
  | inr other ↦ rw other (rw (mark_retired-active id keys) refl)
]

-- A sweep, whether it ends in an error or not, leaves the active key in place.
pub sweep-get_active :
    (fails : String → Bool) (ids : List String) (db : Db)
    → get_active (sweep fails ids db).0.keys ≡ get_active db.keys
unfolding sweep
sweep-get_active fails [] db = refl
sweep-get_active fails (id ∷ ids) db = elim (Bool-cases (fails id)) [
  | inl broken ↦ rw broken refl
  | inr fine ↦ rw fine (sweep-get_active fails ids _ ∙ mark_retired-active id db.keys)
]

insert-active :
    (id : String) (now : ℕ) (public_pem wrapped : String) (keys : List SigningKey)
    → get_active (insert id now public_pem wrapped "active" keys)
      ≡ some (new_key id now public_pem wrapped "active")
unfolding insert get_active find
insert-active id now public_pem wrapped keys = refl

bootstrapped :
    (tx_fails : Bool) (pair : Option (String × String)) (id : String) (now : ℕ) (db : Db)
    → get_active db.keys ≡ none
    → (bootstrap false tx_fails pair id now db).1 ≡ ok tt
    → (k : SigningKey) × (get_active (bootstrap false tx_fails pair id now db).0.keys ≡ some k)
unfolding bootstrap
bootstrapped tx_fails none id now db missing e = let never = rw missing at e in cc
bootstrapped true (some (public_pem, wrapped)) id now db missing e =
    let never = rw missing at e in cc
bootstrapped false (some (public_pem, wrapped)) id now db missing e =
    rw missing
      (new_key id now public_pem wrapped "active", insert-active id now public_pem wrapped db.keys)

-- Where bootstrapping reports no error there is an active key; and an active key that was there before stays.
pub bootstrap-get_active :
    (active_fails tx_fails : Bool) (pair : Option (String × String)) (id : String) (now : ℕ)
    (db : Db)
    → (bootstrap active_fails tx_fails pair id now db).1 ≡ ok tt
    → (k : SigningKey) × (get_active (bootstrap active_fails tx_fails pair id now db).0.keys
        ≡ some k)
      × ((j : SigningKey) → get_active db.keys ≡ some j → k ≡ j)
unfolding bootstrap
bootstrap-get_active true tx_fails pair id now db e = cc
bootstrap-get_active false tx_fails pair id now db e = elim (Option-cases (get_active db.keys)) [
  | inl missing ↦
      let (k, active) = bootstrapped tx_fails pair id now db missing e in (k, active, λ j h. cc)
  | inr (k, there) ↦ (k, rw (there, there) refl, λ j h. cc)
]

-- ===== src/Users/Admin/Tables.antt =====
-- The table of the users has an active super_admin, and one row for each id; what keeps that.
use schlass.Base.{
  ◌≤◌, ◌≡◌, ◌≢◌, refl, Bool, true, false, not, none, some, List, [], ◌∷◌, String, ◌==◌,
  if◌then◌else◌, All, ap, arith, eq_iff, Bool-cases, Option-cases, inl, inr,
}
use schlass.Store.Tables.{User}
use schlass.Store.Sql.{find, update_where, count_where, select_where}
use schlass.Store.Counts.{
  count_where-update_where, count_where-select_where, find-none-update_where,
  find-none-select_where, none_meets,
}
use schlass.Users.Store.{has_id}
use schlass.Users.Admin.{is_active_admin}

-- The primary key.
abbrev pub IsKeyed : List User → Type 0
IsKeyed [] = Unit
IsKeyed (u ∷ us) = (find (has_id u.id) us ≡ none) × IsKeyed us

pub record IsAdministered (users : List User) : Type 0 where
  pub keyed : IsKeyed users
  pub administered : 1 ≤ count_where is_active_admin users

pub update_where-IsKeyed :
    (q : User → Bool) (f : User → User) (users : List User)
    → ((u : User) → (f u).id ≡ u.id)
    → IsKeyed users
    → IsKeyed (update_where q f users)
unfolding update_where
update_where-IsKeyed q f [] same keyed = tt
update_where-IsKeyed q f (u ∷ us) same (fresh, keyed) =
    let id_kept : (if q u then f u else u).id ≡ u.id = ground (arith, same u) in
    let same_test = λ (r : User). ap (λ x. x == u.id) (same r) in
    (
      rw id_kept (find-none-update_where (has_id u.id) q f us same_test fresh),
      update_where-IsKeyed q f us same keyed,
    )

pub select_where-IsKeyed :
    (keep : User → Bool) (users : List User) → IsKeyed users → IsKeyed (select_where keep users)
unfolding select_where
select_where-IsKeyed keep [] keyed = tt
select_where-IsKeyed keep (u ∷ us) (fresh, keyed) = elim (Bool-cases (keep u)) [
  | inl kept ↦
      rw kept
        (find-none-select_where (has_id u.id) keep us fresh, select_where-IsKeyed keep us keyed)
  | inr gone ↦ rw gone (select_where-IsKeyed keep us keyed)
]

-- Where the row of an id is no active super_admin, no active super_admin has the id.
abbrev Others : String → List User → Type 0
Others id users = All (λ r. is_active_admin r ≡ true → has_id id r ≡ false) users

All-Others :
    (id : String) (users : List User) → All (λ r. has_id id r ≡ false) users → Others id users
All-Others id [] h = tt
All-Others id (u ∷ us) (h, hs) = (λ _. h, All-Others id us hs)

pub others :
    (id : String) (users : List User) (existing : User)
    → IsKeyed users
    → find (has_id id) users ≡ some existing
    → is_active_admin existing ≡ false
    → Others id users
unfolding find
others id [] existing keyed found plain = tt
others id (u ∷ us) existing (fresh, keyed) found plain = elim (Bool-cases (u.id == id)) [
  | inl mine ↦
      let is : u ≡ existing = let it = rw mine at found in ground arith in
      let same : u.id ≡ id = (eq_iff u.id id).0 mine in
      let rest = rw same at fresh in
      (λ admin. let it = rw is at admin in cc, All-Others id us (none_meets (has_id id) us rest))
  | inr other ↦ (λ _. other, others id us existing keyed (rw other at found) plain)
]

Others-update_where :
    (id : String) (f : User → User) (users : List User)
    → Others id users
    → All (λ r. is_active_admin r ≡ true → has_id id r ≡ true → is_active_admin (f r) ≡ true) users
Others-update_where id f [] h = tt
Others-update_where id f (u ∷ us) (h, hs) =
    (λ admin mine. let other = h admin in cc, Others-update_where id f us hs)

Others-select_where :
    (id : String) (users : List User)
    → Others id users
    → All (λ r. is_active_admin r ≡ true → not (has_id id r) ≡ true) users
Others-select_where id [] h = tt
Others-select_where id (u ∷ us) (h, hs) = (λ admin. rw (h admin) refl, Others-select_where id us hs)

-- An update of the row of an id, which keeps an active super_admin, or whose row is none before.
pub kept_by_update :
    (id : String) (f : User → User) (users : List User)
    → IsAdministered users
    → ((u : User) → (f u).id ≡ u.id)
    → All (λ r. is_active_admin r ≡ true → has_id id r ≡ true → is_active_admin (f r) ≡ true) users
    → IsAdministered (update_where (has_id id) f users)
kept_by_update id f users healthy same keeps =
    let administered = healthy.administered in
    let more = count_where-update_where is_active_admin (has_id id) f users keeps in
    record {
      keyed = update_where-IsKeyed (has_id id) f users same healthy.keyed;
      administered = omega arith;
    }

pub plain_update :
    (id : String) (f : User → User) (users : List User) (existing : User)
    → IsAdministered users
    → ((u : User) → (f u).id ≡ u.id)
    → find (has_id id) users ≡ some existing
    → is_active_admin existing ≡ false
    → IsAdministered (update_where (has_id id) f users)
plain_update id f users existing healthy same found plain =
    kept_by_update id f users healthy same
      (Others-update_where id f users (others id users existing healthy.keyed found plain))

pub plain_delete :
    (id : String) (users : List User) (existing : User)
    → IsAdministered users
    → find (has_id id) users ≡ some existing
    → is_active_admin existing ≡ false
    → IsAdministered (select_where (λ u. not (has_id id u)) users)
plain_delete id users existing healthy found plain =
    let administered = healthy.administered in
    let more =
      count_where-select_where is_active_admin (λ u. not (has_id id u)) users
        (Others-select_where id users (others id users existing healthy.keyed found plain)) in
    record {
      keyed = select_where-IsKeyed (λ u. not (has_id id u)) users healthy.keyed;
      administered = omega arith;
    }

-- An update that keeps the role and the status of the row.
each_keeps :
    (id : String) (f : User → User) (users : List User)
    → ((u : User) → is_active_admin u ≡ true → is_active_admin (f u) ≡ true)
    → All (λ r. is_active_admin r ≡ true → has_id id r ≡ true → is_active_admin (f r) ≡ true) users
each_keeps id f [] h = tt
each_keeps id f (u ∷ us) h = (λ admin _. h u admin, each_keeps id f us h)

pub harmless_update :
    (id : String) (f : User → User) (users : List User)
    → IsAdministered users
    → ((u : User) → (f u).id ≡ u.id)
    → ((u : User) → is_active_admin u ≡ true → is_active_admin (f u) ≡ true)
    → IsAdministered (update_where (has_id id) f users)
harmless_update id f users healthy same keeps =
    kept_by_update id f users healthy same (each_keeps id f users keeps)

-- An update or a delete whose result was counted where the row was that of a super_admin.
abbrev pub IsCounted : String → List User → List User → Type 0
IsCounted id users after =
    (find (has_id id) users ≢ none)
    × ((existing : User)
        → find (has_id id) users ≡ some existing
        → (existing.role == "super_admin") ≡ true
        → 1 ≤ count_where is_active_admin after)

pub counted_update :
    (id : String) (f : User → User) (users : List User)
    → IsAdministered users
    → ((u : User) → (f u).id ≡ u.id)
    → IsCounted id users (update_where (has_id id) f users)
    → IsAdministered (update_where (has_id id) f users)
counted_update id f users healthy same (there, counted) =
    elim (Option-cases (find (has_id id) users)) [
      | inl missing ↦ absurd (there missing)
      | inr (existing, found) ↦ elim (Bool-cases (existing.role == "super_admin")) [
        | inl admin ↦ record {
          keyed = update_where-IsKeyed (has_id id) f users same healthy.keyed;
          administered = counted existing found admin;
        }
        | inr plain ↦ plain_update id f users existing healthy same found (rw plain refl)
      ]
    ]

pub counted_delete :
    (id : String) (users : List User)
    → IsAdministered users
    → IsCounted id users (select_where (λ u. not (has_id id u)) users)
    → IsAdministered (select_where (λ u. not (has_id id u)) users)
counted_delete id users healthy (there, counted) = elim (Option-cases (find (has_id id) users)) [
  | inl missing ↦ absurd (there missing)
  | inr (existing, found) ↦ elim (Bool-cases (existing.role == "super_admin")) [
    | inl admin ↦ record {
      keyed = select_where-IsKeyed (λ u. not (has_id id u)) users healthy.keyed;
      administered = counted existing found admin;
    }
    | inr plain ↦ plain_delete id users existing healthy found (rw plain refl)
  ]
]

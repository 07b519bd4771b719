-- ===== src/Users/Store.antt =====
-- internal/users/store.go: the reads and the writes of the table that do not guard the login.
use schlass.Base.{
  ℕ, Bool, true, false, not, Option, none, some, List, ◌∷◌, String, ◌==◌, nat_eq, if◌then◌else◌,
  Result, ok, err,
}
use schlass.Store.Tables.{User}
use schlass.Store.Sql.{find, update_where, count_where, select_where}

-- ErrUserNotFound, and an error of the query.
pub data UserError : Type 0 where
  user_not_found query_failed : UserError

-- The INSERT with the defaults of the table; the database gives the id. `broken` says of each
-- function here that its query fails.
unfoldable pub create :
    (broken : Bool) (now : ℕ) (id email password_hash role : String) (force_password_change : Bool)
    → List User
    → List User × Result UserError String
create broken now id email password_hash role force users =
    let row : User = record {
      id = id;
      email = email;
      password_hash = password_hash;
      role = role;
      status = "active";
      force_password_change = force;
      totp_secret_encrypted = none;
      totp_enrolled_at = none;
      failed_login_attempts = 0;
      locked_until = none;
      last_used_totp_counter = 0;
      last_login_at = none;
      created_at = now;
      updated_at = now;
    } in
    if broken then (users, err query_failed) else (row ∷ users, ok id)

-- scanUser of the one row of a SELECT.
abbrev pub scan_user : Bool → Option User → Result UserError User
scan_user true row = err query_failed
scan_user false none = err user_not_found
scan_user false (some u) = ok u

abbrev pub has_email : String → User → Bool
has_email email u = u.email == email

abbrev pub has_id : String → User → Bool
has_id id u = u.id == id

unfoldable pub get_by_email : (broken : Bool) → String → List User → Result UserError User
get_by_email broken email users = scan_user broken (find (has_email email) users)

unfoldable pub get_by_id : (broken : Bool) → String → List User → Result UserError User
get_by_id broken id users = scan_user broken (find (has_id id) users)

unfoldable pub get_email : (broken : Bool) → String → List User → Result UserError String
get_email broken id users = elim (scan_user broken (find (has_id id) users)) [
  | err e ↦ err e
  | ok u ↦ ok u.email
]

-- UPDATE … WHERE id = $1, and the test of RowsAffected that follows it.
abbrev pub exec_row :
    Bool → String → (User → User) → List User → List User × Result UserError (Unit {0})
exec_row broken id f users = if broken then (users, err query_failed) else (
  update_where (has_id id) f users,
  if nat_eq (count_where (has_id id) users) 0 then err user_not_found else ok tt,
)

-- UPDATE … WHERE id = $1, where RowsAffected is not looked at.
abbrev pub exec :
    Bool → String → (User → User) → List User → List User × Result UserError (Unit {0})
exec broken id f users =
    if broken then (users, err query_failed) else (update_where (has_id id) f users, ok tt)

unfoldable pub update :
    (broken : Bool) (now : ℕ) (id email role : String)
    → List User
    → List User × Result UserError (Unit {0})
update broken now id email role =
    exec_row broken id (λ u. record u { email = email; role = role; updated_at = now })

unfoldable pub set_status :
    (broken : Bool) (now : ℕ) (id status : String)
    → List User
    → List User × Result UserError (Unit {0})
set_status broken now id status =
    exec_row broken id (λ u. record u { status = status; updated_at = now })

unfoldable pub delete :
    (broken : Bool) (id : String) → List User → List User × Result UserError (Unit {0})
delete broken id users = if broken then (users, err query_failed) else (
  select_where (λ u. not (has_id id u)) users,
  if nat_eq (count_where (has_id id) users) 0 then err user_not_found else ok tt,
)

abbrev pub with_password : ℕ → String → Bool → User → User
with_password now hash force u = record u {
  password_hash = hash;
  force_password_change = force;
  updated_at = now;
}

unfoldable pub set_password_hash :
    (broken : Bool) (now : ℕ) (id hash : String) (force_password_change : Bool)
    → List User
    → List User × Result UserError (Unit {0})
set_password_hash broken now id hash force = exec_row broken id (with_password now hash force)

abbrev pub enrolled : ℕ → String → User → User
enrolled now secret u = record u {
  totp_secret_encrypted = some secret;
  totp_enrolled_at = some now;
}

unfoldable pub set_totp_enrolled :
    (broken : Bool) (now : ℕ) (id encrypted_secret : String)
    → List User
    → List User × Result UserError (Unit {0})
set_totp_enrolled broken now id secret = exec broken id (enrolled now secret)

abbrev pub without_totp : User → User
without_totp u = record u {
  totp_secret_encrypted = none;
  totp_enrolled_at = none;
  last_used_totp_counter = 0;
}

unfoldable pub clear_totp :
    (broken : Bool) (id : String) → List User → List User × Result UserError (Unit {0})
clear_totp broken id = exec broken id without_totp

abbrev pub at_counter : ℕ → User → User
at_counter counter u = record u { last_used_totp_counter = counter }

unfoldable pub advance_totp_counter :
    (broken : Bool) (id : String) (counter : ℕ)
    → List User
    → List User × Result UserError (Unit {0})
advance_totp_counter broken id counter = exec broken id (at_counter counter)

abbrev pub logged_in : ℕ → User → User
logged_in now u = record u { last_login_at = some now; updated_at = now }

unfoldable pub set_last_login_at :
    (broken : Bool) (now : ℕ) (id : String) → List User → List User × Result UserError (Unit {0})
set_last_login_at broken now id = exec_row broken id (logged_in now)

-- ===== src/Tests/Administration.antt =====
-- The user administration on concrete requests, and the theorems at them.
use schlass.Base.{◌≡◌, ◌≢◌, refl, true, none, some, Option, List, [], ◌∷◌, reply, arith}
use schlass.Store.Sql.{find, update_where, count_where, select_where}
use schlass.Store.Tables.{User, Entry}
use schlass.Valkey.Memory.{in_memory}
use schlass.Users.Store.{get_by_id, set_status, delete}
use schlass.Auth.Env.{Env, no_content, World}
use schlass.Users.Admin.{reject_self_op, begin_current, enforce_last_admin_lockout, commit_two}
use schlass.Users.Admin.Write.{UpdateUserRequest}
use schlass.Users.Admin.Status.{
  pseudonymize_user, is_referenced, disable_row, disable, delete_row, scrub_audit, delete_user,
}
use schlass.Users.Admin.Tables.{IsAdministered}
use schlass.Users.Admin.Erasure.{IsErased, delete_user-IsErased, delete_user-referenced}
use schlass.Users.Admin.LastAdmin.Requests.{
  Request, disabling, updating, serve_all, HasFreshIds, active_admin_stays,
}
use schlass.Tests.Fixtures.{alice, code}
use schlass.Tests.Accounts.{lib, config, request, start}

abbrev root : User
root = record alice { id = "u0"; email = "root@example.com"; role = "super_admin" }

abbrev by_root : Env
by_root = record request { current_user = some root }

-- An audit row of a login of the user.
abbrev login_entry : Entry
login_entry = record {
  event_type = "login.succeeded";
  actor_id = some "u1";
  actor_email = "alice@example.com";
  target_type = "user";
  target_id = "u1";
  client_id = none;
  ip_address = "10.0.0.1";
  outcome = "success";
  family_id = none;
}

abbrev two_users : World in_memory
two_users = record (start true alice) {
  db = record (start true alice).db {
    core = record (start true alice).db.core {
      users = root ∷ alice ∷ [];
      codes = [];
      audit_logs = login_entry ∷ [];
    };
  };
}

two_users-IsAdministered : IsAdministered two_users.db.core.users
unfolding find count_where
two_users-IsAdministered = record { keyed = (refl, (refl, tt)); administered = omega arith }

abbrev promotion : Option UpdateUserRequest
promotion = some (record { email = none; role = some "super_admin" })

abbrev requests : List (Env × Request)
requests = (by_root, disabling "u1") ∷ (by_root, updating "u1" promotion) ∷ []

requests-HasFreshIds : HasFreshIds in_memory lib config requests two_users
unfolding find disable reject_self_op begin_current disable_row get_by_id set_status update_where
    count_where commit_two enforce_last_admin_lockout
requests-HasFreshIds = (refl, (refl, tt))

active_admin_stays_example :
    IsAdministered (serve_all in_memory lib config requests two_users).db.core.users
active_admin_stays_example =
    active_admin_stays in_memory lib config requests two_users requests-HasFreshIds
      two_users-IsAdministered

abbrev erased : World in_memory
erased = (delete_user in_memory lib config by_root "u1" two_users).0

alice_deleted : delete_user in_memory lib config by_root "u1" two_users ≡ (erased, reply no_content)
unfolding delete_user reject_self_op begin_current delete_row get_by_id find is_referenced
    count_where delete select_where enforce_last_admin_lockout scrub_audit commit_two
    pseudonymize_user update_where
alice_deleted = refl

delete_user-IsErased_example : IsErased in_memory lib config by_root "u1" two_users erased
delete_user-IsErased_example =
    delete_user-IsErased in_memory lib config by_root "u1" two_users erased alice_deleted

-- The user has an authorization code.
abbrev with_code : World in_memory
with_code = record two_users {
  db = record two_users.db { core = record two_users.db.core { codes = code ∷ [] } };
}

code_refers : is_referenced "u1" with_code.db.core.codes ≡ true
unfolding is_referenced count_where
code_refers = refl

delete_user-referenced_example :
    ((delete_user in_memory lib config by_root "u1" with_code).0.db ≡ with_code.db)
    × ((delete_user in_memory lib config by_root "u1" with_code).1 ≢ reply no_content)
delete_user-referenced_example =
    delete_user-referenced in_memory lib config by_root "u1" with_code "u1" refl code_refers

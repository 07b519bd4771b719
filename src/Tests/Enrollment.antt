-- ===== src/Tests/Enrollment.antt =====
-- An enrollment completed on a concrete request, and the theorem at it.
use schlass.Base.{
  ◌*◌, true, ◌≡◌, refl, ◌==◌, none, some, [], ◌∷◌, List, String, reply, if◌then◌else◌,
}
use schlass.Store.Sql.{find, update_where, count_where}
use schlass.Store.Tables.{User}
use schlass.Oidc.Claims.{second}
use schlass.Valkey.Memory.{in_memory, empty_cells}
use schlass.Valkey.Keys.{same_key, enroll_key}
use schlass.Valkey.MemoryHashes.{memory_hashes}
use schlass.Session.Store.{create, create_with_pending_return_to}
use schlass.Users.Store.{get_by_id, set_totp_enrolled, set_last_login_at}
use schlass.Auth.Env.{Lib, Env, enrolled, user_dto, World}
use schlass.Auth.Enrollment.Complete.{
  load_enrollment, commit_enrollment, close_enrollment, post_enrollment_complete,
}
use schlass.Auth.Enrollment.Guarantee.{IsEnrolled, post_enrollment_complete-IsEnrolled}
use schlass.Tests.Fixtures.{alice}
use schlass.Tests.Accounts.{lib, config, request, start}

abbrev ten_hashes : List String
ten_hashes = "0" ∷ "1" ∷ "2" ∷ "3" ∷ "4" ∷ "5" ∷ "6" ∷ "7" ∷ "8" ∷ "9" ∷ []

abbrev reading_lib : Lib
reading_lib = record lib { unmarshal = λ s. some ten_hashes }

abbrev with_cookie : Env
with_cookie = record request { enroll_cookie = some "t1" }

-- The state of a verified enrollment of alice, started by a login.
abbrev field : String → String
field f =
    if f == "user_id"
    then "u1"
    else if f == "secret_base32"
    then "123456"
    else if f == "recovery_hashes"
    then "hashes"
    else ""

abbrev under_way : World in_memory
under_way = record (start true alice) {
  kv = record empty_cells {
    texts = λ k f. if same_key k (enroll_key "t1") then some (field f) else none;
  };
}

abbrev now_enrolled : User
now_enrolled = record alice {
  totp_secret_encrypted = some "123456";
  totp_enrolled_at = some (120 * second);
}

abbrev done : World in_memory
done =
    (post_enrollment_complete in_memory memory_hashes reading_lib config with_cookie (some true)
      under_way).0

enrollment_completed :
    post_enrollment_complete in_memory memory_hashes reading_lib config with_cookie
      (some true)
      under_way
    ≡ (done, reply (enrolled (some "s1") (user_dto now_enrolled) ""))
unfolding count_where post_enrollment_complete load_enrollment commit_enrollment close_enrollment
    find update_where get_by_id set_totp_enrolled set_last_login_at create
    create_with_pending_return_to
enrollment_completed = refl

post_enrollment_complete-IsEnrolled_example :
    IsEnrolled in_memory memory_hashes reading_lib config with_cookie
      (some true)
      under_way
      (some "s1")
      done
post_enrollment_complete-IsEnrolled_example =
    post_enrollment_complete-IsEnrolled in_memory memory_hashes reading_lib config with_cookie
      (some true) under_way done (some "s1") (user_dto now_enrolled) "" enrollment_completed

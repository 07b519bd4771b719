-- ===== src/Tests/SignIn.antt =====
-- The login and the second factor on concrete requests, and the theorems at them.
use schlass.Base.{
  ok, ℕ, ◌≤◌, ◌≡◌, ◌≢◌, refl, false, true, pos, ◌&&◌, ◌==◌, if◌then◌else◌, none, some, Option, [],
  ◌∷◌, String, reply, arith, byte_len, has_char,
}
use schlass.Store.Sql.{find, update_where, count_where}
use schlass.Store.Tables.{User}
use schlass.Valkey.Memory.{in_memory, Cells, empty_cells}
use schlass.Valkey.Keys.{same_key, challenge_key}
use schlass.Valkey.MemoryHashes.{memory_hashes}
use schlass.Session.Store.{create, create_with_pending_return_to}
use schlass.Users.Store.{has_email, get_by_email, set_last_login_at}
use schlass.Users.Lockout.{count_failure, increment_failed_logins, reset_failed_logins}
use schlass.Auth.Login.Answer.{post_login-answers}
use schlass.Auth.Env.{Call, Env, failure, signed_in, totp_required, user_dto, World}
use schlass.Auth.Login.{
  LoginRequest, validate_login, check_request, find_user, check_lock, check_password,
  wrong_password, reset_counter, record_login, sign_in, sign_in_forced, require_enrollment,
  require_totp, branch, post_login,
}
use schlass.Auth.Login.Conditions.{Unopened}
use schlass.Auth.Login.Branches.{Branch}
use schlass.Auth.Login.Guarantee.{
  failed, IsAuthentic, path_for, post_login-IsSignedIn, post_login-refused,
}
use schlass.Auth.Challenge.{ChallengeRequest, post_challenge}
use schlass.Auth.Challenge.Bound.{checked, five_attempts}
use schlass.Auth.Challenge.Verified.{Verified}
use schlass.Tests.Fixtures.{alice}
use schlass.Tests.Accounts.{lib, config, request, enrolled_alice, start}

abbrev login : (password : String) → Option LoginRequest
login password = some (record { email = "alice@example.com"; password = password; return_to = "" })

abbrev signed : World in_memory
signed =
    (post_login in_memory memory_hashes lib config request (login "hash") (start false alice)).0

login_accepted :
    post_login in_memory memory_hashes lib config request (login "hash") (start false alice)
    ≡ (signed, reply (signed_in "s1" (user_dto alice) ""))
unfolding post_login check_request validate_login find_user check_lock check_password wrong_password
    reset_counter branch record_login sign_in sign_in_forced require_enrollment require_totp find
    update_where get_by_email reset_failed_logins set_last_login_at create byte_len has_char
    count_where create_with_pending_return_to
login_accepted = refl

abbrev refused : World in_memory
refused =
    (post_login in_memory memory_hashes lib config request (login "guess") (start false alice)).0

guess_refused :
    post_login in_memory memory_hashes lib config request (login "guess") (start false alice)
    ≡ (refused, reply (failure 401 "INVALID_CREDENTIALS" "Invalid email or password."))
unfolding post_login check_request validate_login find_user check_lock check_password wrong_password
    reset_counter branch record_login sign_in sign_in_forced require_enrollment require_totp find
    update_where get_by_email increment_failed_logins byte_len has_char count_failure
guess_refused = refl

abbrev challenged : World in_memory
challenged =
    (post_login in_memory memory_hashes lib config request (login "hash")
      (start true enrolled_alice)).0

challenge_given :
    post_login in_memory memory_hashes lib config request (login "hash") (start true enrolled_alice)
    ≡ (challenged, reply (totp_required "t1"))
unfolding post_login check_request validate_login find_user check_lock check_password wrong_password
    reset_counter branch record_login sign_in sign_in_forced require_enrollment require_totp find
    update_where get_by_email reset_failed_logins byte_len has_char
challenge_given = refl

abbrev with_challenge : Env
with_challenge = record request { challenge_cookie = some "t1" }

abbrev code : (digits : String) → Option ChallengeRequest
code digits = some (record { code = digits; recovery_code = "" })

-- The challenge of `challenged`, written down.
abbrev waiting : World in_memory
waiting = record (start true enrolled_alice) {
  kv = record empty_cells {
    texts = λ k f. if same_key k (challenge_key "t1") && f == "user_id" then some "u1" else none;
    numbers = λ k f.
        if same_key k (challenge_key "t1") && f == "attempts_remaining" then some (pos 5) else none;
  };
}

abbrev verified : World in_memory
verified =
    (post_challenge in_memory memory_hashes lib config with_challenge (code "123456") waiting).0

post_login-IsSignedIn_example :
    (req : LoginRequest) × (u : User) × IsAuthentic in_memory memory_hashes lib config request
      (login "hash")
      (start false alice)
      req
      u
    × Branch in_memory memory_hashes lib config request
        (login "hash")
        (start false alice)
        u
        (path_for in_memory memory_hashes lib config request (login "hash") (start false alice) req)
        (signed_in "s1" (user_dto alice) "")
        signed
post_login-IsSignedIn_example =
    post_login-IsSignedIn in_memory memory_hashes lib config request (login "hash")
      (start false alice) signed "s1" (user_dto alice) "" login_accepted

abbrev unauthorized : ℕ
unauthorized = 401

no_server_error : unauthorized ≢ 500
no_server_error e = omega arith

post_login-refused_example :
    Unopened in_memory memory_hashes lib config request (login "guess") (start false alice) refused
post_login-refused_example =
    post_login-refused in_memory memory_hashes lib config request (login "guess")
      (start false alice) refused
      (failure unauthorized "INVALID_CREDENTIALS" "Invalid email or password.")
      (failed unauthorized "INVALID_CREDENTIALS" "Invalid email or password." no_server_error)
      guess_refused

five_attempts_example :
    checked in_memory memory_hashes "t1" lib config
      ((with_challenge, code "000000") ∷ (with_challenge, code "123456") ∷ [])
      challenged
    ≤ 5
five_attempts_example =
    five_attempts in_memory memory_hashes "t1" lib config request (login "hash")
      (start true enrolled_alice) challenged
      ((with_challenge, code "000000") ∷ (with_challenge, code "123456") ∷ []) challenge_given

no_failure : (c : Call) → request.fails c ≡ false
no_failure c = refl

abbrev right_password : LoginRequest
right_password = record { email = "alice@example.com"; password = "hash"; return_to = "" }

in_order : validate_login right_password ≡ none
unfolding validate_login byte_len has_char
in_order = refl

alice_found : find (has_email "alice@example.com") (start false alice).db.core.users ≡ some alice
unfolding find
alice_found = refl

abbrev session_of_alice : Cells
session_of_alice =
    (create in_memory 3600 request.session_now (some "s1") "u1" "10.0.0.1" "browser"
      (start false alice).kv).0

session_created :
    create in_memory 3600 request.session_now
      (some "s1")
      "u1"
      "10.0.0.1"
      "browser"
      (start false alice).kv
    ≡ (session_of_alice, ok "s1")
unfolding create create_with_pending_return_to
session_created = refl

post_login-answers_example :
    (post_login in_memory memory_hashes lib config request (login "hash") (start false alice)).1
    ≡ reply (
        signed_in "s1" (user_dto alice) (
          path_for in_memory memory_hashes lib config request
            (login "hash")
            (start false alice)
            right_password))
post_login-answers_example =
    post_login-answers in_memory memory_hashes lib config request (login "hash") (start false alice)
      right_password alice "s1" session_of_alice no_failure refl refl in_order alice_found refl refl
      refl refl refl session_created

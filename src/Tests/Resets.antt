-- ===== src/Tests/Resets.antt =====
-- A reset of a password, and the middleware, on concrete requests, and the theorems at them.
use schlass.Base.{
  ◌≡◌, ◌≢◌, refl, Bool, true, contains, eq_iff, arith, ◌==◌, if◌then◌else◌, false, none, some, [],
  ◌∷◌, String, reply, next, ok, byte_len,
}
use schlass.Store.Sql.{find, update_where, count_where}
use schlass.Store.Tables.{User}
use schlass.Valkey.Keys.{same_key, session_key, session_json, user_sessions_key, Session}
use schlass.Valkey.Memory.{in_memory, empty_cells, Cells}
use schlass.Session.Store.{get_session, delete_all_for_user}
use schlass.Session.Store.Lifetime.{IsIndexed}
use schlass.Session.RevokeBefore.{revoke_before_set_now}
use schlass.Users.Store.{get_by_id, set_password_hash}
use schlass.Users.Lockout.{clear_lockout_for_password_change}
use schlass.Validate.Credentials.{password, any_rune}
use schlass.Auth.ResetTokens.{get_by_token, mark_used}
use schlass.Auth.Env.{Env, failure, reset_done, World}
use schlass.Auth.Middleware.{identify, middleware, optional_middleware}
use schlass.Auth.Middleware.Guarantee.{
  IsOwner, user_let_through, middleware-IsOwner, optional-agrees,
}
use schlass.Auth.PasswordReset.{
  ConfirmRequest, load_token, check_new_password, store_reset, post_confirm,
}
use schlass.Auth.PasswordReset.Guarantee.{IsConfirmed, post_confirm-IsConfirmed}
use schlass.Auth.PasswordReset.SingleUse.{confirm_all, confirmed_at_most_once}
use schlass.Auth.PasswordReset.SignsOut.{revoked, reset_signs_out}
use schlass.Tests.Fixtures.{alice}
use schlass.Tests.Accounts.{lib, config, request, start}

abbrev confirm : (token : String) → ConfirmRequest
confirm token = record { token = token; password = "new password" }

abbrev reset : World in_memory
reset = (post_confirm in_memory lib config request (some (confirm "link")) (start false alice)).0

reset_confirmed :
    post_confirm in_memory lib config request (some (confirm "link")) (start false alice)
    ≡ (reset, reply (reset_done "u1"))
unfolding post_confirm load_token check_new_password store_reset get_by_token mark_used find
    update_where set_password_hash clear_lockout_for_password_change password any_rune byte_len
    count_where
reset_confirmed = refl

abbrev unchanged : World in_memory
unchanged =
    (post_confirm in_memory lib config request (some (confirm "guess")) (start false alice)).0

unknown_token :
    post_confirm in_memory lib config request (some (confirm "guess")) (start false alice)
    ≡ (unchanged, reply (failure 400 "INVALID_TOKEN" "Reset link is no longer valid."))
unfolding post_confirm load_token check_new_password store_reset get_by_token find
unknown_token = refl

post_confirm-IsConfirmed_example :
    IsConfirmed in_memory lib config request (some (confirm "link")) (start false alice) "u1" reset
post_confirm-IsConfirmed_example =
    post_confirm-IsConfirmed in_memory lib config request (some (confirm "link"))
      (start false alice) reset "u1" reset_confirmed

confirmed_at_most_once_example :
    post_confirm in_memory lib config request
      (some (confirm "link"))
      (confirm_all in_memory lib config ((request, some (confirm "guess")) ∷ []) reset)
    ≢ (reset, reply (reset_done "u1"))
confirmed_at_most_once_example =
    confirmed_at_most_once in_memory lib config request request (confirm "link") (start false alice)
      reset reset "u1" "u1" ((request, some (confirm "guess")) ∷ []) reset_confirmed

abbrev session : Session
session = record {
  user_id = "u1";
  created_at = 0;
  last_seen_at = 0;
  ip_address = "10.0.0.1";
  user_agent = "browser";
  pending_return_to = "";
}

abbrev signed_in : World in_memory
signed_in = record (start false alice) {
  kv = record empty_cells {
    value = λ k. if same_key k (session_key "s0") then some (session_json session) else none;
    items = λ k. if same_key k (user_sessions_key "u1") then "s0" ∷ [] else [];
  };
}

abbrev with_session : Env
with_session = record request { session_cookie = some "s0" }

abbrev passed : World in_memory
passed = (middleware in_memory lib config with_session signed_in).0

let_through : middleware in_memory lib config with_session signed_in ≡ (passed, next alice)
unfolding middleware identify get_session get_by_id find
let_through = refl

middleware-IsOwner_example :
    (token : String) × (with_session.session_cookie ≡ some token)
    × IsOwner in_memory lib config with_session token alice signed_in
middleware-IsOwner_example =
    middleware-IsOwner in_memory lib config with_session signed_in passed alice let_through

filled : (token : String) → with_session.session_cookie ≡ some token → (token == "") ≡ false
filled token e = let is : "s0" ≡ token = cc in rw (← is) refl

optional-agrees_example :
    optional_middleware in_memory lib config with_session signed_in
    ≡ user_let_through (middleware in_memory lib config with_session signed_in)
optional-agrees_example = optional-agrees in_memory lib config with_session signed_in filled

abbrev bob : User
bob = record alice { id = "u2"; email = "bob@example.com" }

-- The session of another user.
abbrev with_bob : World in_memory
with_bob = record (start false alice) {
  db = record (start false alice).db {
    core = record (start false alice).db.core { users = alice ∷ bob ∷ [] };
  };
  kv = record empty_cells {
    value = λ k.
        if same_key k (session_key "s0")
        then some (session_json (record session { user_id = "u2" }))
        else none;
    items = λ k. if same_key k (user_sessions_key "u2") then "s0" ∷ [] else [];
  };
}

abbrev reset_alice : World in_memory
reset_alice = (post_confirm in_memory lib config request (some (confirm "link")) with_bob).0

alice_reset :
    post_confirm in_memory lib config request (some (confirm "link")) with_bob
    ≡ (reset_alice, reply (reset_done "u1"))
unfolding post_confirm load_token check_new_password store_reset get_by_token mark_used find
    update_where set_password_hash clear_lockout_for_password_change password any_rune byte_len
    count_where
alice_reset = refl

abbrev signed_out : Cells
signed_out =
    (delete_all_for_user in_memory 3600 "u1" (revoked in_memory lib config request "u1" with_bob)).0

alice_signed_out :
    delete_all_for_user in_memory 3600 "u1" (revoked in_memory lib config request "u1" with_bob)
    ≡ (signed_out, ok tt)
unfolding delete_all_for_user revoke_before_set_now
alice_signed_out = refl

abbrev bob_passed : World in_memory
bob_passed = (middleware in_memory lib config with_session reset_alice).0

bob_let_through : middleware in_memory lib config with_session reset_alice ≡ (bob_passed, next bob)
unfolding middleware identify get_session get_by_id find post_confirm load_token check_new_password
    store_reset get_by_token mark_used update_where set_password_hash
    clear_lockout_for_password_change password any_rune byte_len count_where delete_all_for_user
    revoke_before_set_now
bob_let_through = refl

one_session :
    (token : String) (s : Session) (b : Bool)
    → (token == "s0") ≡ b
    → (if b then some (session_json (record session { user_id = "u2" })) else none)
      ≡ some (session_json s)
    → contains (if s.user_id == "u2" then "s0" ∷ [] else []) token ≡ true
one_session token s true e held =
    let owner : "u2" ≡ s.user_id = ground arith in
    let is : token ≡ "s0" = (eq_iff token "s0").0 e in rw (← owner, is) refl
one_session token s false e held = cc

with_bob-IsIndexed : IsIndexed in_memory 3600 (revoked in_memory lib config request "u1" with_bob)
unfolding revoke_before_set_now
with_bob-IsIndexed = λ token s held. one_session token s (token == "s0") refl held

reset_signs_out_example :
    (token : String) × (owner : IsOwner in_memory lib config with_session token bob reset_alice)
    × (owner.session.user_id ≢ "u1")
reset_signs_out_example =
    reset_signs_out in_memory lib config request with_session (some (confirm "link")) with_bob
      reset_alice bob_passed "u1" bob signed_out alice_reset with_bob-IsIndexed alice_signed_out
      bob_let_through

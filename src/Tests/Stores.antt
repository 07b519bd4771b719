-- ===== src/Tests/Stores.antt =====
-- The stores on small tables and on the server in memory.
use schlass.Base.{
  ℕ, ◌-◌, In, inl, inr, ◌+◌, ◌≤◌, ◌≡◌, ◌≢◌, refl, Bool, true, false, Option, none, some, List, [],
  ◌∷◌, String, ◌==◌, Result, ok, arith, ltb, length, if◌then◌else◌, contains,
}
use schlass.Store.Tables.{User, SigningKey, Db}
use schlass.Store.Sql.{update_where, find, select_where}
use schlass.Valkey.Keys.{Session, session_json}
use schlass.Valkey.Memory.{Cells, in_memory, empty_cells}
use schlass.Session.Store.{create_with_pending_return_to, get_session, delete, delete_all_for_user}
use schlass.Session.Store.Lifetime.{IsIndexed, get_session-delete_all_for_user}
use schlass.SigningKeys.{mark_retired, get_active, list_retirable, sweep, retire_sweep, bootstrap}
use schlass.SigningKeys.Sweep.{retire_sweep_complete}
use schlass.Clients.Store.{is_active_client, verify_secret}
use schlass.Clients.Lifecycle.{rotate_secret, verify_secret-rotate_secret}
use schlass.Users.Lockout.{
  count_failure, increment_failed_logins, Attempt, failure, success, attempts, lock_holds,
}
use schlass.Auth.RecoveryCodes.{RecoveryCode}
use schlass.Auth.ResetTokens.{ResetToken}
use schlass.RateLimit.{allow, trim, zadd, zrem}
use schlass.RateLimit.Window.{serve, IsRun, allow-bounded}
use schlass.Tests.Fixtures.{alice, app, key, tables}

abbrev logged_in : Cells
logged_in =
    (create_with_pending_return_to in_memory 3600 5 (some "t1") "u1" "ip" "agent" "" empty_cells).0

session_created :
    create_with_pending_return_to in_memory 3600 5 (some "t1") "u1" "ip" "agent" "" empty_cells
    ≡ (logged_in, ok "t1")
unfolding create_with_pending_return_to
session_created = refl

abbrev logged_out : Cells
logged_out = (delete in_memory 3600 "u1" "t1" logged_in).0

session_deleted : delete in_memory 3600 "u1" "t1" logged_in ≡ (logged_out, ok tt)
unfolding delete
session_deleted = refl

abbrev session : (user_id : String) → Session
session user_id = record {
  user_id = user_id;
  created_at = 5;
  last_seen_at = 9;
  ip_address = "ip";
  user_agent = "agent";
  pending_return_to = "";
}

-- The sessions of another user are deleted; the set of the user names the session.
abbrev other_out : Cells
other_out = (delete_all_for_user in_memory 3600 "u2" logged_in).0

others_deleted : delete_all_for_user in_memory 3600 "u2" logged_in ≡ (other_out, ok tt)
unfolding delete_all_for_user
others_deleted = refl

one_session :
    (token : String) (s : Session) (b : Bool)
    → ("t1" == token) ≡ b
    → (if b then some (session_json (record (session "u1") { last_seen_at = 5 })) else none)
      ≡ some (session_json s)
    → contains (if "u1" == s.user_id then "t1" ∷ [] else []) token ≡ true
one_session token s true e held =
    let owner : "u1" ≡ s.user_id = ground arith in rw (← owner, e) refl
one_session token s false e held = cc

logged_in-IsIndexed : IsIndexed in_memory 3600 logged_in
unfolding create_with_pending_return_to
logged_in-IsIndexed = λ token s held. one_session token s ("t1" == token) refl held

still_there : (get_session in_memory 3600 9 "t1" other_out).1 ≡ ok (session "u1")
unfolding create_with_pending_return_to delete_all_for_user get_session
still_there = refl

get_session-delete_all_for_user_example : (session "u1").user_id ≢ "u2"
get_session-delete_all_for_user_example =
    get_session-delete_all_for_user in_memory 3600 9 "u2" "t1" logged_in other_out (session "u1")
      logged_in-IsIndexed others_deleted still_there

abbrev old_key : SigningKey
old_key = record key { id = "k0"; status = "retiring"; rotated_at = some 10 }

-- One that was rotated later than that.
abbrev young_key : SigningKey
young_key = record key { id = "k1"; status = "retiring"; rotated_at = some 30 }

abbrev three_keys : Db
three_keys = record tables { keys = old_key ∷ young_key ∷ key ∷ [] }

swept : (retire_sweep false (λ id. false) 20 three_keys).1 ≡ ok tt
unfolding retire_sweep sweep list_retirable select_where
swept = refl

key_left : In young_key (retire_sweep false (λ id. false) 20 three_keys).0.keys
unfolding retire_sweep sweep list_retirable select_where mark_retired update_where
key_left = inr (inl refl)

retire_sweep_complete_example : 20 ≤ 30
retire_sweep_complete_example =
    retire_sweep_complete false (λ id. false) 20 30 three_keys young_key swept key_left refl refl

bootstrapped :
    (bootstrap false false (some ("pem", "wrapped")) "k1" 5 (record tables { keys = [] })).1 ≡ ok tt
unfolding bootstrap get_active find
bootstrapped = refl

abbrev read_id : String → Option String
read_id s = some s

abbrev compares : String → String → Result (Unit {0}) Bool
compares secret hash = ok (secret == hash)

app_found : find (is_active_client "app") (app ∷ []) ≡ some app
unfolding find is_active_client
app_found = refl

verify_secret-rotate_secret_example :
    verify_secret read_id compares false 40 "app" "s3cret"
      (rotate_secret read_id 10 "app" "new" 20 (app ∷ [])).0
    ≡ ok (ltb 40 (10 + 20))
verify_secret-rotate_secret_example =
    verify_secret-rotate_secret read_id compares 10 20 40 "app" "app" "s3cret" "s3cret" "new"
      (app ∷ []) app refl app_found refl refl refl

abbrev locked : User
locked = record alice { failed_login_attempts = 5; locked_until = some 100 }

locked_found : find (λ v. v.id == "u1") (locked ∷ []) ≡ some locked
unfolding find
locked_found = refl

abbrev tries : List Attempt
tries = failure 20 5 60 "u1" ∷ success 30 "u1" ∷ failure 40 5 60 "u2" ∷ []

lock_holds_example : find (λ v. v.id == "u1") (attempts tries (locked ∷ [])) ≡ some locked
lock_holds_example =
    lock_holds "u1" locked 100 tries (locked ∷ []) locked_found refl
      (ground arith, (ground arith, (ground arith, tt)))

abbrev after_failure : List User
after_failure = (increment_failed_logins 20 1 60 "u1" (alice ∷ [])).0

counted : increment_failed_logins 20 1 60 "u1" (alice ∷ []) ≡ (after_failure, ok (1, true))
unfolding increment_failed_logins find count_failure
counted = refl

abbrev recovery : RecoveryCode
recovery = record { id = "c1"; user_id = "u1"; code_hash = "h"; used_at = none; created_at = 0 }

abbrev reset_token : ResetToken
reset_token = record {
  id = "p1";
  user_id = "u1";
  token_hash = "h";
  expires_at = 100;
  used_at = none;
  created_at = 0;
}

-- Two pass, one is refused, and one passes when the window has moved on.
abbrev visits : List (ℕ × String)
visits = (10, "a") ∷ (20, "b") ∷ (30, "c") ∷ (75, "d") ∷ []

two_passed : (serve 2 60 visits ([], [])).1 ≡ (75, "d") ∷ (20, "b") ∷ (10, "a") ∷ []
unfolding allow trim zadd zrem select_where
two_passed = refl

visits-IsRun : IsRun 2 60 0 visits []
unfolding allow trim zadd zrem select_where
visits-IsRun = (
  ground arith,
  tt,
  (
    ground arith,
    (refl, tt),
    (ground arith, (refl, (refl, tt)), (ground arith, (refl, (refl, tt)), tt)),
  ),
)

allow-bounded_example : length (trim (75 - 60) (serve 2 60 visits ([], [])).1) ≤ 2
allow-bounded_example = allow-bounded 2 60 visits visits-IsRun

-- ===== src/Users/Lockout.antt =====
-- internal/users/store.go: failed logins and the lock of an account.
use schlass.Base.{
  ℕ, suc, ◌+◌, ◌*◌, ◌≤◌, ◌<◌, ◌≡◌, refl, ap, inl, inr, ◌↔◌, Bool, true, false, ◌&&◌, Option, none,
  some, List, [], ◌∷◌, String, ◌==◌, ltb, leb, if◌then◌else◌, Result, ok, err, All, arith,
  Bool-cases, Option-cases,
}
use schlass.Store.Tables.{User}
use schlass.Store.Sql.{find, update_where, find_meets}
use schlass.Oidc.Claims.{second}

-- locked_until IS NULL OR locked_until < now()
abbrev pub not_locked : ℕ → Option ℕ → Bool
not_locked now none = true
not_locked now (some until) = ltb until now

-- locked_until IS NOT NULL AND locked_until > now()
abbrev pub is_locked : ℕ → Option ℕ → Bool
is_locked now none = false
is_locked now (some until) = ltb now until

abbrev pub may_count : ℕ → String → User → Bool
may_count now id u = u.id == id && not_locked now u.locked_until

-- The SET of IncrementFailedLogins.
unfoldable pub count_failure : (now threshold duration_secs : ℕ) → User → User
count_failure now threshold duration_secs u = record u {
  failed_login_attempts = suc u.failed_login_attempts;
  locked_until =
      if leb threshold (suc u.failed_login_attempts)
      then some (now + duration_secs * second)
      else u.locked_until;
  updated_at = now;
}

-- The count and whether the row is now locked; the error is ErrAlreadyLocked.
unfoldable pub increment_failed_logins :
    (now threshold duration_secs : ℕ)
    → String
    → List User
    → List User × Result (Unit {0}) (ℕ × Bool)
increment_failed_logins now threshold duration_secs id users = (
  update_where (may_count now id) (count_failure now threshold duration_secs) users,
  elim (find (may_count now id) users) [
    | none ↦ err tt
    | some u ↦ ok (
      (count_failure now threshold duration_secs u).failed_login_attempts,
      is_locked now (count_failure now threshold duration_secs u).locked_until,
    )
  ],
)

abbrev pub reset : ℕ → User → User
reset now u = record u { failed_login_attempts = 0; locked_until = none; updated_at = now }

unfoldable pub reset_failed_logins :
    (now : ℕ) → String → List User → List User × Result (Unit {0}) (Unit {0})
reset_failed_logins now id users = (
  update_where (may_count now id) (reset now) users,
  elim (find (may_count now id) users) [ none ↦ err tt | some u ↦ ok tt ],
)

unfoldable pub clear_lockout_for_password_change : (now : ℕ) → String → List User → List User
clear_lockout_for_password_change now id users = update_where (λ u. u.id == id) (reset now) users

-- What a login attempt does to the table.
pub data Attempt : Type 0 where
  failure : (now threshold duration_secs : ℕ) → String → Attempt
  success : (now : ℕ) → String → Attempt

abbrev pub time_of : Attempt → ℕ
time_of (failure now threshold duration_secs id) = now
time_of (success now id) = now

abbrev pub attempt : Attempt → List User → List User
attempt (failure now threshold duration_secs id) users =
    (increment_failed_logins now threshold duration_secs id users).0
attempt (success now id) users = (reset_failed_logins now id users).0

abbrev pub attempts : List Attempt → List User → List User
attempts [] users = users
attempts (a ∷ rest) users = attempts rest (attempt a users)

id_kept :
    (p : User → Bool) (f : User → User) (v : User)
    → (f v).id ≡ v.id
    → (if p v then f v else v).id ≡ v.id
id_kept p f v same = elim (Bool-cases (p v)) [ inl h ↦ rw h same | inr h ↦ rw h refl ]

-- An update that leaves the row of this id alone.
find_kept :
    (id : String) (p : User → Bool) (f : User → User) (users : List User) (u : User)
    → find (λ v. v.id == id) users ≡ some u
    → ((v : User) → (f v).id ≡ v.id)
    → p u ≡ false
    → find (λ v. v.id == id) (update_where p f users) ≡ some u
unfolding find update_where
find_kept id p f [] u e same other = cc
find_kept id p f (v ∷ users) u e same other = elim (Bool-cases (v.id == id)) [
  | inl mine ↦
      let is : v ≡ u = let it = rw mine at e in ground arith in
      let left_alone : p v ≡ false = rw is other in rw (left_alone, mine) (ap some is)
  | inr not_mine ↦
      rw (id_kept p f v (same v), not_mine) (find_kept id p f users u (rw not_mine at e) same other)
]

-- An attempt leaves the row of a locked account as it is.
may_not_count :
    (now until : ℕ) (who : String) (u : User)
    → u.locked_until ≡ some until
    → now ≤ until
    → may_count now who u ≡ false
may_not_count now until who u locked h = rw locked (ground arith)

failure_kept :
    (id who : String) (now threshold secs until : ℕ) (users : List User) (u : User)
    → find (λ v. v.id == id) users ≡ some u
    → u.locked_until ≡ some until
    → now ≤ until
    → find (λ v. v.id == id) (increment_failed_logins now threshold secs who users).0 ≡ some u
unfolding increment_failed_logins count_failure
failure_kept id who now threshold secs until users u there locked h =
    find_kept id (may_count now who) (count_failure now threshold secs) users u there (λ v. refl)
      (may_not_count now until who u locked h)

success_kept :
    (id who : String) (now until : ℕ) (users : List User) (u : User)
    → find (λ v. v.id == id) users ≡ some u
    → u.locked_until ≡ some until
    → now ≤ until
    → find (λ v. v.id == id) (reset_failed_logins now who users).0 ≡ some u
unfolding reset_failed_logins
success_kept id who now until users u there locked h =
    find_kept id (may_count now who) (reset now) users u there (λ v. refl)
      (may_not_count now until who u locked h)

-- A locked account stays locked: while its lock has not run out, no sequence of failed and successful attempts, on
-- this account or on others, changes its row.
pub lock_holds :
    (id : String) (u : User) (until : ℕ) (rest : List Attempt) (users : List User)
    → find (λ v. v.id == id) users ≡ some u
    → u.locked_until ≡ some until
    → All (λ a. time_of a ≤ until) rest
    → find (λ v. v.id == id) (attempts rest users) ≡ some u
lock_holds id u until [] users there locked h = there
lock_holds id u until (failure now threshold secs who ∷ rest) users there locked (h, hs) =
    lock_holds id u until rest _
      (failure_kept id who now threshold secs until users u there locked h) locked hs
lock_holds id u until (success now who ∷ rest) users there locked (h, hs) =
    lock_holds id u until rest _ (success_kept id who now until users u there locked h) locked hs

lock_at_threshold :
    (now threshold secs count : ℕ) (old : Option ℕ)
    → 0 < secs
    → not_locked now old ≡ true
    → (is_locked now (if leb threshold count then some (now + secs * second) else old) ≡ true)
      ↔ (threshold ≤ count)
lock_at_threshold now threshold secs count none positive open_now = ground arith
lock_at_threshold now threshold secs count (some until) positive open_now = ground arith

-- A failed attempt that is counted locks the row exactly when the count has reached the threshold, for a lock of
-- positive duration on a row whose earlier lock is over.
pub increment-locks :
    (now threshold secs count : ℕ) (locked : Bool) (id : String) (users users' : List User)
    → 0 < secs
    → increment_failed_logins now threshold secs id users ≡ (users', ok (count, locked))
    → (locked ≡ true) ↔ (threshold ≤ count)
unfolding increment_failed_logins count_failure
increment-locks now threshold secs count locked id users users' positive e =
    elim (Option-cases (find (may_count now id) users)) [
      | inl missing ↦ absurd (let never = rw missing at e in cc)
      | inr (u, there) ↦
          let it = rw there at e in
          let counts = find_meets (may_count now id) users there in
          let n : suc u.failed_login_attempts ≡ count = cc in
          let is : is_locked now (
                if leb threshold (suc u.failed_login_attempts)
                then some (now + secs * second)
                else u.locked_until)
              ≡ locked =
            cc in
          rw (← is, ← n)
            (lock_at_threshold now threshold secs (suc u.failed_login_attempts) u.locked_until
              positive (ground arith))
    ]

-- ===== src/RateLimit/Window.antt =====
-- How many requests the rate limiter of internal/middleware/ratelimit.go lets pass within a window.
use text.Mathlib.TextPositions.{eq_refl}
use schlass.Base.{
  ℕ, ◌-◌, ◌≤◌, ◌≡◌, refl, ◌∙◌, inl, inr, Bool, true, false, List, [], ◌∷◌, String, ◌==◌, length,
  ltb, if◌then◌else◌, arith, Bool-cases, All,
}
use schlass.Store.Sql.{select_where}
use schlass.RateLimit.{Members, trim, zrem, zadd, allow}

-- A request that was let through is noted, the latest one first.
abbrev pub noted : ℕ × String → Members × Bool → Members → Members × Members
noted request (ms, true) passed = (ms, request ∷ passed)
noted request (ms, false) passed = (ms, passed)

-- The set after a sequence of requests, each a time and a member, and the requests that passed.
abbrev pub serve : (limit window : ℕ) → List (ℕ × String) → Members × Members → Members × Members
serve limit window [] state = state
serve limit window ((now, member) ∷ requests) (ms, passed) =
    serve limit window requests (noted (now, member) (allow limit window now member ms) passed)

abbrev pub last_time : ℕ → List (ℕ × String) → ℕ
last_time last [] = last
last_time last ((now, member) ∷ requests) = last_time now requests

abbrev pub IsAbsent : String → Members → Type 0
IsAbsent member ms = All (λ m. (m.1 == member) ≡ false) ms

-- The times do not decrease, and no member is in the set when it is added.
abbrev pub IsRun : (limit window last : ℕ) → List (ℕ × String) → Members → Type 0
IsRun limit window last [] ms = Unit {0}
IsRun limit window last ((now, member) ∷ requests) ms =
    (last ≤ now)
    × IsAbsent member ms
    × IsRun limit window now requests (allow limit window now member ms).0

length-trim : (start : ℕ) (ms : Members) → length (trim start ms) ≤ length ms
unfolding trim select_where
length-trim start [] = ground arith
length-trim start (m ∷ ms) = ground (arith, length-trim start ms)

trim-trim :
    (early late : ℕ) (ms : Members) → early ≤ late → trim late (trim early ms) ≡ trim late ms
unfolding trim select_where
trim-trim early late [] h = refl
trim-trim early late (m ∷ ms) h =
    let rest = trim-trim early late ms h in
    elim (Bool-cases (ltb early m.0)) [
      | inl kept ↦ rw (kept, rest) refl
      | inr gone ↦ let out : ltb late m.0 ≡ false = ground arith in rw (gone, out) rest
    ]

trim-IsAbsent :
    (start : ℕ) (member : String) (ms : Members)
    → IsAbsent member ms
    → IsAbsent member (trim start ms)
unfolding trim select_where
trim-IsAbsent start member [] absent = tt
trim-IsAbsent start member (m ∷ ms) (other, absent) = elim (Bool-cases (ltb start m.0)) [
  | inl kept ↦ rw kept (other, trim-IsAbsent start member ms absent)
  | inr gone ↦ rw gone (trim-IsAbsent start member ms absent)
]

zrem-IsAbsent : (member : String) (ms : Members) → IsAbsent member ms → zrem member ms ≡ ms
unfolding zrem select_where
zrem-IsAbsent member [] absent = refl
zrem-IsAbsent member (m ∷ ms) (other, absent) = rw (other, zrem-IsAbsent member ms absent) refl

zrem_head :
    (score : ℕ) (member : String) (ms : Members)
    → IsAbsent member ms
    → zrem member ((score, member) ∷ ms) ≡ ms
unfolding zrem select_where
zrem_head score member ms absent = rw (eq_refl member) (zrem-IsAbsent member ms absent)

-- What happens to a request whose member is new.
abbrev decided : (limit : ℕ) → ℕ × String → Members → Members × Bool
decided limit request kept =
    if ltb limit (length (request ∷ kept)) then (kept, false) else (request ∷ kept, true)

allow-decided :
    (limit window now : ℕ) (member : String) (ms : Members)
    → IsAbsent member ms
    → allow limit window now member ms ≡ decided limit (now, member) (trim (now - window) ms)
unfolding allow zadd
allow-decided limit window now member ms absent =
    let new = trim-IsAbsent (now - window) member ms absent in
    rw
      (
        zrem-IsAbsent member (trim (now - window) ms) new,
        zrem_head now member (trim (now - window) ms) new,
      )
      refl

-- The set has at most `limit` members, and those in the window are the requests in it that passed.
abbrev IsAccurate : (limit window last : ℕ) → Members × Members → Type 0
IsAccurate limit window last (ms, passed) =
    (length ms ≤ limit) × ((start : ℕ) → last - window ≤ start → trim start ms ≡ trim start passed)

trim_same :
    (start : ℕ) (m : ℕ × String) (ms passed : Members)
    → trim start ms ≡ trim start passed
    → trim start (m ∷ ms) ≡ trim start (m ∷ passed)
unfolding trim select_where
trim_same start m ms passed same = rw same refl

decided-IsAccurate :
    (limit window last now : ℕ) (member : String) (ms passed : Members)
    → last ≤ now
    → IsAccurate limit window last (ms, passed)
    → IsAccurate limit window now
        (noted (now, member) (decided limit (now, member) (trim (now - window) ms)) passed)
decided-IsAccurate limit window last now member ms passed h (few, same) =
    let kept = trim (now - window) ms in
    let shorter = length-trim (now - window) ms in
    let still : (start : ℕ) → now - window ≤ start → trim start kept ≡ trim start passed =
      λ start later. trim-trim (now - window) start ms later ∙ same start (omega arith) in
    elim (Bool-cases (ltb limit (length ((now, member) ∷ kept)))) [
      | inl full ↦ rw full (omega arith, still)
      | inr room ↦ rw room (
        ground arith,
        λ start later. trim_same start (now, member) kept passed (still start later),
      )
    ]

noted_set :
    (request : ℕ × String) (answer : Members × Bool) (passed : Members)
    → (noted request answer passed).0 ≡ answer.0
noted_set request (ms, true) passed = refl
noted_set request (ms, false) passed = refl

serve-IsAccurate :
    (limit window last : ℕ) (requests : List (ℕ × String)) (ms passed : Members)
    → IsRun limit window last requests ms
    → IsAccurate limit window last (ms, passed)
    → IsAccurate limit window (last_time last requests) (serve limit window requests (ms, passed))
serve-IsAccurate limit window last [] ms passed run accurate = accurate
serve-IsAccurate limit window last ((now, member) ∷ requests) ms passed (h, absent, run) accurate =
    let is = allow-decided limit window now member ms absent in
    let step = decided-IsAccurate limit window last now member ms passed h accurate in
    let answer = allow limit window now member ms in
    serve-IsAccurate limit window now requests (noted (now, member) answer passed).0
      (noted (now, member) answer passed).1 (rw (noted_set (now, member) answer passed) run)
      (rw is step)

-- Of any sequence of requests, whose times do not decrease and whose members are new, no more than `limit` pass within the
-- window that ends at the last one.
pub allow-bounded :
    (limit window : ℕ) (requests : List (ℕ × String))
    → IsRun limit window 0 requests []
    → length (trim (last_time 0 requests - window) (serve limit window requests ([], [])).1) ≤ limit
allow-bounded limit window requests run =
    let (few, same) =
      serve-IsAccurate limit window 0 requests [] [] run (ground arith, λ start h. refl) in
    let start = last_time 0 requests - window in
    rw (← same start (omega arith))
      (let it = length-trim start (serve limit window requests ([], [])).0 in omega arith)

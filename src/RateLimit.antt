-- ===== src/RateLimit.antt =====
-- The sliding window of internal/middleware/ratelimit.go: a sorted set of requests for each client.
pub mod Window
use text.Mathlib.TextPositions.{eq_refl}
use schlass.Base.{
  ℕ, ◌-◌, ◌≤◌, ◌≡◌, refl, inl, inr, Bool, true, false, not, Option, none, some, List, [], ◌∷◌,
  String, ◌==◌, length, ltb, if◌then◌else◌, arith, Bool-cases,
}
use schlass.Store.Sql.{select_where}

-- A member of the sorted set with its score, in microseconds.
abbrev pub Members : Type 0
Members = List (ℕ × String)

-- ZREMRANGEBYSCORE key -inf start
unfoldable pub trim : (start : ℕ) → Members → Members
trim start ms = select_where (λ m. ltb start m.0) ms

-- ZREM
unfoldable pub zrem : String → Members → Members
zrem member ms = select_where (λ m. not (m.1 == member)) ms

-- ZADD: a member that is there takes the new score.
unfoldable pub zadd : ℕ → String → Members → Members
unfolding zrem
zadd score member ms = (score, member) ∷ zrem member ms

-- allow, where no command fails. The answer says whether the request may pass.
unfoldable pub allow : (limit window now : ℕ) (member : String) → Members → Members × Bool
unfolding trim zadd zrem
allow limit window now member ms =
    let added = zadd now member (trim (now - window) ms) in
    if ltb limit (length added) then (zrem member added, false) else (added, true)

-- What the middleware does with an error of the pipeline: FailClosed refuses, else the request passes.
pub data Verdict : Type 0 where
  pass unavailable limited : Verdict

unfoldable pub verdict : (fail_closed : Bool) → Option Bool → Verdict
verdict fail_closed none = if fail_closed then unavailable else pass
verdict fail_closed (some true) = pass
verdict fail_closed (some false) = limited

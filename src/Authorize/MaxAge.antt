-- ===== src/Authorize/MaxAge.antt =====
-- parseUint of internal/authserver/authorize.go, in uint64, and the cap of max_age.
use Prim.Native.Char.{code}
use Prim.Native.String.{String, [], ◌∷◌}
use schlass.Base.{
  ℕ, ◌+◌, ◌-◌, ◌*◌, ◌%◌, ◌/◌, ◌≤◌, ◌<◌, ◌≡◌, ap, Bool, false, ◌&&◌, ◌==◌, Option, none, some, leb,
  ltb, if◌then◌else◌, arith,
}
use schlass.Oidc.Claims.{second}

abbrev pub is_digit : ℕ → Bool
is_digit c = leb 48 c && leb c 57

-- The loop: n = n*10 + uint64(c-'0'), which wraps around.
unfoldable pub digits_from : ℕ → String → Option ℕ
digits_from n [] = some n
digits_from n (c ∷ s) =
    let rest = digits_from ((n * 10 + (code c - 48)) % 18446744073709551616) s in
    if is_digit (code c) then rest else none

-- `none` is an error.
unfoldable pub parse_uint : String → Option ℕ
unfolding digits_from
parse_uint s = if s == "" then none else digits_from 0 s

-- uint64(1<<63-1) / uint64(time.Second)
abbrev pub max_age_cap : ℕ
max_age_cap = 9223372036854775807 / second

-- time.Duration(secs) * time.Second, of the seconds under the cap.
unfoldable pub max_age_duration : ℕ → ℕ
max_age_duration secs = (if ltb max_age_cap secs then max_age_cap else secs) * second

-- The duration of the parameter; no parameter is the duration 0.
unfoldable pub max_age_of : String → Option ℕ
unfolding parse_uint max_age_duration
max_age_of ma =
    if ma == ""
    then some 0
    else elim (parse_uint ma) [ none ↦ none | some secs ↦ some (max_age_duration secs) ]

-- The number that decimal digits denote.
abbrev pub decimal_from : ℕ → String → ℕ
decimal_from n [] = n
decimal_from n (c ∷ s) = decimal_from (n * 10 + (code c - 48)) s

abbrev pub AllDigits : String → Type 0
AllDigits [] = Unit
AllDigits (c ∷ s) = (48 ≤ code c) × (code c ≤ 57) × AllDigits s

decimal_from_mod :
    (n m : ℕ) (s : String)
    → n % 18446744073709551616 ≡ m % 18446744073709551616
    → decimal_from n s % 18446744073709551616 ≡ decimal_from m s % 18446744073709551616
decimal_from_mod n m [] h = h
decimal_from_mod n m (c ∷ s) h =
    decimal_from_mod (n * 10 + (code c - 48)) (m * 10 + (code c - 48)) s (omega arith)

digits_from_decimal :
    (n : ℕ) (s : String)
    → n < 18446744073709551616
    → AllDigits s
    → digits_from n s ≡ some (decimal_from n s % 18446744073709551616)
unfolding digits_from
digits_from_decimal n [] small h = ap some (omega arith)
digits_from_decimal n (c ∷ s) small (low, high, h) =
    let wrapped = (n * 10 + (code c - 48)) % 18446744073709551616 in
    let rest = digits_from_decimal wrapped s (omega arith) h in
    let same = decimal_from_mod wrapped (n * 10 + (code c - 48)) s (omega arith) in ground arith

-- A non-empty text of decimal digits is read as the number it denotes modulo 2^64: a max_age of 2^64 seconds is
-- read as 0.
pub parse_uint_decimal :
    (s : String)
    → (s == "") ≡ false
    → AllDigits s
    → parse_uint s ≡ some (decimal_from 0 s % 18446744073709551616)
unfolding parse_uint
parse_uint_decimal s nonempty h = rw nonempty (digits_from_decimal 0 s (omega arith) h)

-- The duration of a max_age fits a time.Duration, whatever the seconds; and it is exactly that many seconds where they do
-- not exceed the cap.
pub max_age_duration_bounds :
    (secs : ℕ)
    → (max_age_duration secs ≤ 9223372036854775807)
      × (secs ≤ max_age_cap → max_age_duration secs ≡ secs * second)
unfolding max_age_duration
max_age_duration_bounds secs = (ground arith, λ h. ground arith)

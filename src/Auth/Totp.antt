-- ===== src/Auth/Totp.antt =====
-- ValidateTOTP of internal/crypto/totp.go.
use schlass.Base.{
  ℕ, ◌+◌, ◌-◌, ◌/◌, ◌≤◌, ◌<◌, ◌≡◌, ◌⊎◌, Bool, true, false, Option, none, some, List, [], ◌∷◌, leb,
  if◌then◌else◌, Result, ok, err, arith,
}

-- The answer of ValidateCustom at one step, for the code and the secret; `none` is an error.
abbrev pub Check : Type 0
Check = ℕ → Option Bool

-- What the loop does with an answer at a step that it did not skip.
abbrev pub answered : ℕ → Option Bool → Result (Unit {0}) (Option ℕ) → Result (Unit {0}) (Option ℕ)
answered step none rest = err tt
answered step (some true) rest = ok (some step)
answered step (some false) rest = rest

-- The loop over the steps; a step that is not later than the last one used is skipped.
unfoldable pub try_steps : Check → (last_counter : ℕ) → List ℕ → Result (Unit {0}) (Option ℕ)
try_steps check last [] = ok none
try_steps check last (step ∷ steps) =
    let rest = try_steps check last steps in
    if leb step last then rest else answered step (check step) rest

abbrev pub candidates : ℕ → List ℕ
candidates current = current ∷ (current - 1) ∷ (current + 1) ∷ []

-- `now` is in seconds. The matched step, if there is one.
unfoldable pub validate_totp : Check → (now last_counter : ℕ) → Result (Unit {0}) (Option ℕ)
validate_totp check now last = try_steps check last (candidates (now / 30))

-- A code is accepted only for a step at which it is valid, later than the last step used and at most one step from the
-- present one.
pub validate_totp_sound :
    (check : Check) (now last step : ℕ)
    → validate_totp check now last ≡ ok (some step)
    → (check step ≡ some true) × (last < step) × (step ≤ now / 30 + 1) × (now / 30 ≤ step + 1)
unfolding validate_totp try_steps
validate_totp_sound check now last step e = ground arith

-- Where no code is accepted, and no check failed, the code is invalid at each of the three steps that is later than the
-- last one used.
pub validate_totp_complete :
    (check : Check) (now last step : ℕ)
    → validate_totp check now last ≡ ok none
    → last < step
    → (step ≡ now / 30) ⊎ ((step ≡ now / 30 - 1) ⊎ (step ≡ now / 30 + 1))
    → check step ≡ some false
unfolding validate_totp try_steps
validate_totp_complete check now last step e later near = ground arith

-- No step is accepted twice: once a step was accepted and stored as the last one used, later validations accept only
-- later steps.
pub no_step_twice :
    (check check' : Check) (now later last step step' : ℕ)
    → validate_totp check now last ≡ ok (some step)
    → validate_totp check' later step ≡ ok (some step')
    → last < step × step < step'
no_step_twice check check' now later last step step' e e' = (
  (validate_totp_sound check now last step e).1,
  (validate_totp_sound check' later step step' e').1,
)

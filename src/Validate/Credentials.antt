-- ===== src/Validate/Credentials.antt =====
-- Email and Password of internal/validate.
use Prim.Native.Char.{code}
use Prim.Native.String.{String, [], ◌∷◌}
use schlass.Base.{
  ℕ, ◌≤◌, ◌≡◌, ◌⊎◌, ◌↔◌, Bool, true, false, not, ◌&&◌, ◌||◌, Option, none, some, ◌==◌, ltb,
  if◌then◌else◌, has_char, byte_len, arith,
}

pub data CredentialError : Type 0 where
  email_required email_too_long email_whitespace email_invalid : CredentialError
  password_too_short : ℕ → CredentialError
  password_no_upper password_no_digit : CredentialError

-- `parses` stands for mail.ParseAddress; `none` is no error.
unfoldable pub email : (parses : String → Bool) → String → Option CredentialError
email parses address =
    if address == ""
    then some email_required
    else (if ltb 254 (byte_len address)
        then some email_too_long
        else (if has_char 32 address
              || has_char 9 address
              || has_char 10 address
              || has_char 13 address
            then some email_whitespace
            else (if parses address then none else some email_invalid)))

pub record PasswordPolicy : Type 0 where
  pub min_length : ℕ
  pub require_upper : Bool
  pub require_digit : Bool

-- The loops over the runes; `test` stands for unicode.IsUpper or unicode.IsDigit.
unfoldable pub any_rune : (test : ℕ → Bool) → String → Bool
any_rune test [] = false
any_rune test (c ∷ s) = if test (code c) then true else any_rune test s

unfoldable pub password :
    (is_upper is_digit : ℕ → Bool) → String → PasswordPolicy → Option CredentialError
password is_upper is_digit p policy =
    if ltb (byte_len p) policy.min_length
    then some (password_too_short policy.min_length)
    else (if policy.require_upper && not (any_rune is_upper p)
        then some password_no_upper
        else (if policy.require_digit && not (any_rune is_digit p)
            then some password_no_digit
            else none))

-- A text has a rune that meets the test.
abbrev pub HasRune : (ℕ → Bool) → String → Type 0
HasRune test [] = ⊥
HasRune test (c ∷ s) = (test (code c) ≡ true) ⊎ HasRune test s

any_rune_iff : (test : ℕ → Bool) (s : String) → (any_rune test s ≡ true) ↔ HasRune test s
unfolding any_rune
any_rune_iff test [] = ground arith
any_rune_iff test (c ∷ s) = ground (arith, any_rune_iff test s)

-- A password is accepted exactly when it has the least length in bytes, and an upper-case letter and a digit where the
-- policy asks for them.
pub password_iff :
    (is_upper is_digit : ℕ → Bool) (p : String) (policy : PasswordPolicy)
    → (password is_upper is_digit p policy ≡ none) ↔ (
        (policy.min_length ≤ byte_len p)
        × (policy.require_upper ≡ true → HasRune is_upper p)
        × (policy.require_digit ≡ true → HasRune is_digit p))
unfolding password
password_iff is_upper is_digit p policy =
    ground (arith, any_rune_iff is_upper p, any_rune_iff is_digit p)

-- ===== src/Validate/Grants.antt =====
-- ValidateScopes, ValidateGrantTypes and ValidateClientName of internal/clients/validate.go.
use schlass.Base.{
  ◌≡◌, ◌≢◌, refl, inl, inr, ◌↔◌, true, false, not, Option, none, some, List, [], ◌∷◌, String, ◌==◌,
  contains, ltb, if◌then◌else◌, Result, ok, err, All, In, contains_iff, arith, eq_iff, IsWord,
  IsWord-by_test, no_space, trim_space, byte_len,
}

pub data ListError : Type 0 where
  no_entry : ListError
  empty_entry : ListError
  unknown_entry duplicate_entry : String → ListError

abbrev pub known_scopes : List String
known_scopes = "openid" ∷ "profile" ∷ "email" ∷ "offline_access" ∷ []

abbrev pub known_grant_types : List String
known_grant_types = "authorization_code" ∷ "refresh_token" ∷ []

-- The loop of both validators: known, and not seen before; `none` is no error.
unfoldable pub check_entries : (known seen : List String) → List String → Option ListError
check_entries known seen [] = none
check_entries known seen (s ∷ rest) =
    let later = check_entries known (s ∷ seen) rest in
    if not (contains known s)
    then some (unknown_entry s)
    else (if contains seen s then some (duplicate_entry s) else later)

-- The loop of ValidateScopes also refuses an empty entry, which no known scope is.
unfoldable pub check_scopes : (seen : List String) → List String → Option ListError
check_scopes seen [] = none
check_scopes seen (s ∷ rest) =
    let later = check_scopes (s ∷ seen) rest in
    if s == ""
    then some empty_entry
    else (if not (contains known_scopes s)
        then some (unknown_entry s)
        else (if contains seen s then some (duplicate_entry s) else later))

unfoldable pub validate_scopes : List String → Option ListError
validate_scopes scopes = check_scopes [] scopes

unfoldable pub validate_grant_types : List String → Option ListError
validate_grant_types [] = some no_entry
validate_grant_types (g ∷ gs) = check_entries known_grant_types [] (g ∷ gs)

pub data NameError : Type 0 where
  name_required name_too_long : NameError

-- The trimmed name, of at most 100 bytes.
unfoldable pub validate_client_name : String → Result NameError String
validate_client_name raw =
    if trim_space raw == ""
    then err name_required
    else (if ltb 100 (byte_len (trim_space raw)) then err name_too_long else ok (trim_space raw))

-- No entry stands twice.
abbrev pub Distinct : List String → Type 0
Distinct [] = Unit
Distinct (s ∷ rest) = (contains rest s ≡ false) × Distinct rest

-- The entries are known, none was seen, and none stands twice.
abbrev pub AreFresh : (known seen : List String) → List String → Type 0
AreFresh known seen rest =
    All (λ s. contains known s ≡ true) rest
    × All (λ s. contains seen s ≡ false) rest
    × Distinct rest

abbrev AreUnseen : List String → List String → Type 0
AreUnseen seen = All (λ t. contains seen t ≡ false)

-- To have not seen one more text.
unseen_cons :
    (s : String) (seen rest : List String)
    → AreUnseen (s ∷ seen) rest ↔ (AreUnseen seen rest × (contains rest s ≡ false))
unseen_cons s seen [] = ground arith
unseen_cons s seen (t ∷ rest) = ground (arith, unseen_cons s seen rest, eq_iff s t, eq_iff t s)

unseen_nil : (rest : List String) → AreUnseen [] rest
unseen_nil [] = tt
unseen_nil (s ∷ rest) = (refl, unseen_nil rest)

In-All : (xs : List String) (x : String) → In x xs → All IsWord xs → IsWord x
In-All [] x h hs = elim h [ ]
In-All (y ∷ xs) x (inl e) (h, hs) = rw e at h
In-All (y ∷ xs) x (inr there) (h, hs) = In-All xs x there hs

check_entries_iff :
    (known seen rest : List String)
    → (check_entries known seen rest ≡ none) ↔ AreFresh known seen rest
unfolding check_entries
check_entries_iff known seen [] = ground arith
check_entries_iff known seen (s ∷ rest) =
    ground (arith, check_entries_iff known (s ∷ seen) rest, unseen_cons s seen rest)

-- A list of grant types is accepted exactly when it is not empty, every entry is known and none stands twice.
pub validate_grant_types_iff :
    (gs : List String)
    → (validate_grant_types gs ≡ none)
      ↔ ((gs ≢ []) × All (λ g. contains known_grant_types g ≡ true) gs × Distinct gs)
unfolding validate_grant_types
validate_grant_types_iff [] = (λ e. absurd cc, λ h. absurd (h.0 refl))
validate_grant_types_iff (g ∷ gs) =
    let it = check_entries_iff known_grant_types [] (g ∷ gs) in
    (
      λ e. let (known, _, distinct) = it.0 e in (λ h. cc, known, distinct),
      λ h. it.1 (h.1, unseen_nil (g ∷ gs), h.2),
    )

known_scopes-IsWord : All IsWord known_scopes
unfolding no_space
known_scopes-IsWord = (
  IsWord-by_test "openid" refl refl,
  (
    IsWord-by_test "profile" refl refl,
    (IsWord-by_test "email" refl refl, (IsWord-by_test "offline_access" refl refl, tt)),
  ),
)

known_scope-IsWord : (s : String) → In s known_scopes → IsWord s
known_scope-IsWord s h = In-All known_scopes s h known_scopes-IsWord

check_scopes_sound :
    (seen rest : List String)
    → check_scopes seen rest ≡ none
    → check_entries known_scopes seen rest ≡ none
unfolding check_scopes check_entries
check_scopes_sound seen [] e = refl
check_scopes_sound seen (s ∷ rest) e = ground (arith, check_scopes_sound (s ∷ seen) rest)

All-IsWord :
    (scopes : List String) → All (λ s. contains known_scopes s ≡ true) scopes → All IsWord scopes
All-IsWord [] h = tt
All-IsWord (s ∷ rest) (h, hs) =
    (known_scope-IsWord s ((contains_iff known_scopes s).0 h), All-IsWord rest hs)

-- Every scope of a list that is accepted is known, none stands twice, and each is a word that strings.Fields
-- gives back whole.
pub validate_scopes_sound :
    (scopes : List String)
    → validate_scopes scopes ≡ none
    → All (λ s. contains known_scopes s ≡ true) scopes × Distinct scopes × All IsWord scopes
unfolding validate_scopes
validate_scopes_sound scopes e =
    let (known, _, distinct) =
      (check_entries_iff known_scopes [] scopes).0 (check_scopes_sound [] scopes e) in
    (known, distinct, All-IsWord scopes known)

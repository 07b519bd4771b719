-- ===== src/Oidc/Scopes.antt =====
-- The type Scopes of internal/oidc/claims.go, and intersectScopesAgainstClient of
-- internal/authserver/token.go.
pub mod Narrowing
pub mod Words
use schlass.Base.{Bool, Option, none, some, List, [], ◌∷◌, String, if◌then◌else◌, contains, ◌⧺◌}

abbrev pub Scopes : Type 0
Scopes = List String

-- Scopes.Has
abbrev pub has : Scopes → String → Bool
has = contains

-- Scopes.String: strings.Join(s, " ")
unfoldable pub to_string : Scopes → String
to_string [] = ""
to_string (s ∷ []) = s
to_string (s ∷ t ∷ ss) = s ⧺ " " ⧺ to_string (t ∷ ss)

-- The loop over `granted`; `allowedSet` is asked by membership.
unfoldable pub keep_allowed : Scopes → Scopes → Scopes
keep_allowed [] allowed = []
keep_allowed (s ∷ granted) allowed =
    let out = keep_allowed granted allowed in if contains allowed s then s ∷ out else out

-- `none` where nothing is left: a scope list of no element is refused.
unfoldable pub refuse_empty : Scopes → Option Scopes
refuse_empty [] = none
refuse_empty (s ∷ out) = some (s ∷ out)

-- `none` is the error invalid_scope.
unfoldable pub intersect_scopes_against_client : Scopes → Scopes → Option Scopes
intersect_scopes_against_client granted allowed = refuse_empty (keep_allowed granted allowed)

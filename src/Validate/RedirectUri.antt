-- ===== src/Validate/RedirectUri.antt =====
-- ValidateRedirectURIInput of internal/clients/redirect_uri.go.
use schlass.Base.{
  ◌≤◌, ◌≡◌, ◌≢◌, ◌⊎◌, inl, inr, Bool, true, false, not, ◌||◌, Option, none, some, List, [], ◌∷◌,
  String, ◌==◌, contains, ltb, if◌then◌else◌, has_char, byte_len, arith, eq_iff, Option-cases,
}

-- What is used of a url.URL; hostname is the answer of Hostname.
pub record Url : Type 0 where
  pub scheme : String
  pub host : String
  pub hostname : String
  pub path : String
  pub fragment : String

pub data UriError : Type 0 where
  uri_empty uri_too_long uri_whitespace uri_parse uri_relative uri_fragment uri_wildcard : UriError
  uri_not_loopback uri_scheme : String → UriError

abbrev pub loopback_hosts : List String
loopback_hosts = "localhost" ∷ "127.0.0.1" ∷ "[::1]" ∷ "::1" ∷ []

-- strings.ContainsAny(raw, " \t\r\n")
unfoldable pub has_whitespace : String → Bool
has_whitespace raw = has_char 32 raw || has_char 9 raw || has_char 13 raw || has_char 10 raw

abbrev pub check_scheme : Url → Option UriError
check_scheme u =
    if u.scheme == "https"
    then none
    else (if u.scheme == "http"
        then (if contains loopback_hosts u.hostname
            then none
            else some (uri_not_loopback u.hostname))
        else some (uri_scheme u.scheme))

abbrev pub check_url : String → Option Url → Option UriError
check_url raw none = some uri_parse
check_url raw (some u) =
    if u.scheme == "" || u.host == ""
    then some uri_relative
    else (if not (u.fragment == "") || has_char 35 raw
        then some uri_fragment
        else (if has_char 42 u.host || has_char 42 u.path
            then some uri_wildcard
            else check_scheme u))

-- `parse` stands for url.Parse; `none` is no error.
unfoldable pub validate_redirect_uri_input :
    (parse : String → Option Url) → String → Option UriError
validate_redirect_uri_input parse raw =
    if raw == ""
    then some uri_empty
    else (if ltb 2048 (byte_len raw)
        then some uri_too_long
        else (if has_whitespace raw then some uri_whitespace else check_url raw (parse raw)))

-- The parsed URI has a host, has no * in the host or the path, and is served under https or, on a loopback host, under http.
abbrev pub IsSafe : Url → Type 0
IsSafe u =
    (u.host ≢ "")
    × (has_char 42 u.host ≡ false)
    × (has_char 42 u.path ≡ false)
    × ((u.scheme ≡ "https") ⊎ ((u.scheme ≡ "http") × (contains loopback_hosts u.hostname ≡ true)))

check_url-IsSafe :
    (raw : String) (u : Url) → check_url raw (some u) ≡ none → (has_char 35 raw ≡ false) × IsSafe u
check_url-IsSafe raw u e =
    ground (arith, eq_iff u.host "", eq_iff u.scheme "https", eq_iff u.scheme "http")

no_whitespace :
    (raw : String)
    → has_whitespace raw ≡ false
    → (has_char 32 raw ≡ false)
      × (has_char 9 raw ≡ false)
      × (has_char 13 raw ≡ false)
      × (has_char 10 raw ≡ false)
unfolding has_whitespace
no_whitespace raw e = ground arith

-- A redirect URI that is accepted is at most 2048 bytes long, has no space, tab, carriage return or line feed and no
-- fragment sign, and is parsed as a URI with a host, with no * in the host or the path, under https, or under http on
-- a loopback host. Other white space, and a * in the query, are not excluded.
pub validate_redirect_uri_input_sound :
    (parse : String → Option Url) (raw : String)
    → validate_redirect_uri_input parse raw ≡ none
    → (byte_len raw ≤ 2048)
      × (has_char 32 raw ≡ false)
      × (has_char 9 raw ≡ false)
      × (has_char 13 raw ≡ false)
      × (has_char 10 raw ≡ false)
      × (has_char 35 raw ≡ false)
      × ((u : Url) × (parse raw ≡ some u) × IsSafe u)
unfolding validate_redirect_uri_input
validate_redirect_uri_input_sound parse raw e = elim (Option-cases (parse raw)) [
  | inl unread ↦ absurd (let never = rw unread at e in ground arith)
  | inr (u, read) ↦
      let it = rw read at e in
      let checked : check_url raw (some u) ≡ none = ground arith in
      let (no_hash, safe) = check_url-IsSafe raw u checked in
      let (space, tab, cr, lf) = no_whitespace raw (ground arith) in
      (ground arith, space, tab, cr, lf, no_hash, (u, read, safe))
]

-- ===== src/Oidc/ReturnTo.antt =====
-- internal/oidc/returnto.go. `parse` stands for url.Parse, `none` for its error.
use schlass.Base.{
  ◌≡◌, ◌⊎◌, inl, inr, ◌&&◌, not, Option, none, some, String, ◌==◌, ◌⧺◌, arith, eq_iff,
  if◌then◌else◌, ap, ◌∙◌, Bool-cases,
}

-- The fields of url.URL that the guard reads.
pub record Url : Type 0 where
  pub scheme : String
  pub host : String
  pub path : String
  pub raw_query : String

-- The guards after both texts are parsed.
unfoldable pub canonical : Url → Url → Option String
canonical u server =
    if not (u.scheme == "") && not (u.scheme == server.scheme)
    then none
    else (if not (u.host == "") && not (u.host == server.host)
        then none
        else (if not (u.path == "/authorize")
            then none
            else some (if u.raw_query == "" then u.path else u.path ⧺ "?" ⧺ u.raw_query)))

-- The path of the authorization endpoint, with or without a query.
abbrev pub IsLocalAuthorize : String → Type 0
IsLocalAuthorize out =
    (out ≡ "/authorize") ⊎ ((query : String) × (out ≡ "/authorize" ⧺ "?" ⧺ query))

-- A part of a URL that is left out or is the server's own.
abbrev pub IsOwn : String → String → Type 0
IsOwn part own = (part ≡ "") ⊎ (part ≡ own)

canonical-IsOwn :
    (u server : Url) {out : String}
    → canonical u server ≡ some out
    → IsOwn u.scheme server.scheme × IsOwn u.host server.host × (u.path ≡ "/authorize")
unfolding canonical
canonical-IsOwn u server e = ground (
  arith,
  eq_iff u.scheme "",
  eq_iff u.scheme server.scheme,
  eq_iff u.host "",
  eq_iff u.host server.host,
  eq_iff u.path "/authorize",
)

canonical_out :
    (u server : Url) {out : String}
    → canonical u server ≡ some out
    → out ≡ (if u.raw_query == "" then u.path else u.path ⧺ "?" ⧺ u.raw_query)
unfolding canonical
canonical_out u server e = ground arith

canonical-IsLocal :
    (u server : Url) (out : String) → canonical u server ≡ some out → IsLocalAuthorize out
canonical-IsLocal u server out e =
    let path = (canonical-IsOwn u server e).2 in
    elim (Bool-cases (u.raw_query == "")) [
      | inl bare ↦ inl (canonical_out u server e ∙ rw bare path)
      | inr query ↦
          inr (
            u.raw_query,
            canonical_out u server e ∙ rw query (ap (λ p. p ⧺ "?" ⧺ u.raw_query) path),
          )
    ]

module _ (parse : String → Option Url) where
  -- `none` is the result ("", false).
  unfoldable pub sanitize_return_to : String → String → Option String
  sanitize_return_to raw public_url = if raw == "" then none else elim (parse raw) [
    | none ↦ none
    | some u ↦ elim (parse public_url) [ none ↦ none | some server ↦ canonical u server ]
  ]

  -- The two texts parse, and the guards accept what they parse to.
  sanitize_return_to-parsed :
      (raw public_url : String) {out : String}
      → sanitize_return_to raw public_url ≡ some out
      → (u : Url) × (server : Url) × (parse raw ≡ some u)
        × (parse public_url ≡ some server)
        × (canonical u server ≡ some out)
  unfolding sanitize_return_to
  sanitize_return_to-parsed raw public_url e = ground arith

  -- Whatever url.Parse makes of the texts, what is accepted is the path /authorize with or without
  -- a query, and never a scheme or a host; and the scheme of the text given is empty or that of the server's
  -- public URL, and so is its host. The two are tested one by one, so that a text without a scheme may name the server's host.
  pub sanitize_return_to-IsLocal :
      (raw public_url out : String)
      → sanitize_return_to raw public_url ≡ some out
      → IsLocalAuthorize out
        × ((u : Url) × (server : Url) × (parse raw ≡ some u)
            × (parse public_url ≡ some server)
            × IsOwn u.scheme server.scheme
            × IsOwn u.host server.host)
  sanitize_return_to-IsLocal raw public_url out e =
      let (u, server, pu, ps, c) = sanitize_return_to-parsed raw public_url e in
      let (scheme, host, _) = canonical-IsOwn u server c in
      (canonical-IsLocal u server out c, (u, server, pu, ps, scheme, host))

-- ===== src/Oidc/Jwt.antt =====
-- parseAndVerify of internal/oidc/jwt.go, for access tokens.
use schlass.Base.{
  ◌≡◌, ◌≢◌, Bool, true, not, ◌||◌, Option, none, some, String, ◌==◌, if◌then◌else◌, arith, eq_iff,
  Option-cases, inl, inr,
}
use schlass.Oidc.Claims.{AccessTokenClaims}

-- What the JWT library reads of a token before it asks for the key; a header that is missing is "".
pub record Jwt : Type 0 where
  pub alg : String
  pub typ : String
  pub kid : String
  pub claims : AccessTokenClaims

-- The key function, then the signature; `verify` stands for the library's RS256 check under a public key, which also
-- fails on a text that is no key.
abbrev pub verify_parsed :
    (verify : String → String → Bool) (lookup : String → Option String) (want_typ raw : String)
    → Option Jwt
    → Option AccessTokenClaims
verify_parsed verify lookup want_typ raw none = none
verify_parsed verify lookup want_typ raw (some t) =
    if not (t.alg == "RS256") || not (t.typ == want_typ) || t.kid == ""
    then none
    else elim (lookup t.kid) [
      | none ↦ none
      | some pem ↦ if verify raw pem then some t.claims else none
    ]

-- ParseAndVerifyAccessToken; `parse` stands for the library's reading of a token.
unfoldable pub parse_and_verify_access_token :
    (parse : String → Option Jwt) (verify : String → String → Bool)
    (lookup : String → Option String)
    → String
    → Option AccessTokenClaims
parse_and_verify_access_token parse verify lookup raw =
    verify_parsed verify lookup "at+jwt" raw (parse raw)

-- Why claims are believed.
pub record IsVerified (parse : String → Option Jwt) (verify : String → String → Bool)
    (lookup : String → Option String) (raw : String) (c : AccessTokenClaims) : Type 0 where
  pub token : Jwt
  pub pem : String
  pub parsed : parse raw ≡ some token
  pub rs256 : token.alg ≡ "RS256"
  pub access_token : token.typ ≡ "at+jwt"
  pub named : token.kid ≢ ""
  pub key : lookup token.kid ≡ some pem
  pub signed : verify raw pem ≡ true
  pub claims : token.claims ≡ c

looked_up :
    (parse : String → Option Jwt) (verify : String → String → Bool)
    (lookup : String → Option String) (raw : String) (t : Jwt) (c : AccessTokenClaims)
    → parse raw ≡ some t
    → verify_parsed verify lookup "at+jwt" raw (some t) ≡ some c
    → IsVerified parse verify lookup raw c
looked_up parse verify lookup raw t c parsed e = elim (Option-cases (lookup t.kid)) [
  | inl unknown ↦ absurd (let it = rw unknown at e in ground arith)
  | inr (pem, known) ↦
      let it = rw known at e in
      record {
        token = t;
        pem = pem;
        parsed = parsed;
        rs256 = let f = eq_iff t.alg "RS256" in ground arith;
        access_token = let f = eq_iff t.typ "at+jwt" in ground arith;
        named = let f = eq_iff t.kid "" in ground arith;
        key = known;
        signed = ground arith;
        claims = ground arith;
      }
]

pub parse_and_verify_sound :
    (parse : String → Option Jwt) (verify : String → String → Bool)
    (lookup : String → Option String) (raw : String) (c : AccessTokenClaims)
    → parse_and_verify_access_token parse verify lookup raw ≡ some c
    → IsVerified parse verify lookup raw c
unfolding parse_and_verify_access_token
parse_and_verify_sound parse verify lookup raw c e = elim (Option-cases (parse raw)) [
  | inl unread ↦ absurd (let never = rw unread at e in cc)
  | inr (t, read) ↦ looked_up parse verify lookup raw t c read (rw read at e)
]

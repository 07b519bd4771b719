-- ===== src/Oidc/Pkce.antt =====
-- internal/oidc/pkce.go. The digest is a parameter: `s256` stands for
-- base64.RawURLEncoding.EncodeToString of sha256.Sum256.
use schlass.Base.{◌≡◌, ◌≢◌, Bool, true, ◌||◌, false, String, ◌==◌, arith, eq_iff, if◌then◌else◌}

module _ (s256 : String → String) where
  unfoldable pub verify_pkce : String → String → Bool
  verify_pkce challenge verifier =
      if challenge == "" || verifier == "" then false else s256 verifier == challenge

  pub verify_pkce_sound :
      (challenge verifier : String)
      → verify_pkce challenge verifier ≡ true
      → (s256 verifier ≡ challenge) × (verifier ≢ "")
  unfolding verify_pkce
  verify_pkce_sound challenge verifier h =
      ground (arith, eq_iff challenge "", eq_iff verifier "", eq_iff (s256 verifier) challenge)

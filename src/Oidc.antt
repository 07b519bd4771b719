-- ===== src/Oidc.antt =====
-- internal/oidc: scopes, claims, PKCE and the return_to guard.
pub mod Scopes
pub mod Claims
pub mod Pkce
pub mod Jwt
pub mod ReturnTo

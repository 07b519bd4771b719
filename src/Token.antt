-- ===== src/Token.antt =====
-- internal/authserver/token.go: the token endpoint, with its two grants.
pub mod Env
pub mod Shared
pub mod CodeGrant
pub mod RefreshGrant
pub mod Handle

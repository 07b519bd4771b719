-- ===== src/Validate.antt =====
-- The validators of internal/clients, internal/settings and internal/validate.
pub mod Grants
pub mod RedirectUri
pub mod Settings
pub mod Credentials

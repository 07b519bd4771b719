-- ===== src/Auth.antt =====
-- internal/auth and what it takes of internal/crypto: one-time codes of the login.
pub mod Totp
pub mod RecoveryCodes
pub mod ResetTokens
pub mod Env
pub mod Steps
pub mod Login
pub mod Account
pub mod ChangePassword
pub mod DisableMfa
pub mod Challenge
pub mod Enrollment
pub mod PasswordReset
pub mod Middleware

-- ===== src/Users.antt =====
-- internal/users: permissions, and the columns that guard the login.
pub mod Permission
pub mod Lockout
pub mod Store
pub mod Admin

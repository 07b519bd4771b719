-- ===== src/Session.antt =====
-- internal/session.
pub mod RevokeBefore
pub mod Store

-- ===== src/Tests.antt =====
-- Runs of the model on concrete requests, and the theorems at them.
pub mod Fixtures
pub mod CodeGrant
pub mod RefreshStore
pub mod RefreshGrant
pub mod Endpoints
pub mod Stores
pub mod Rules
pub mod Accounts
pub mod SignIn
pub mod Resets
pub mod Administration
pub mod Enrollment

-- ===== src/Clients.antt =====
-- internal/clients/store.go.
pub mod Store
pub mod Creation
pub mod Lifecycle
pub mod Lookup

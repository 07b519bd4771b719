-- ===== src/Valkey.antt =====
-- The Valkey server as the program uses it through go-redis: a parameter, with the documented
-- behaviour of the commands as its laws.
pub mod Keys
pub mod Server
pub mod Hashes
pub mod Memory
pub mod MemoryHashes

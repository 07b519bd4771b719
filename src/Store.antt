-- ===== src/Store.antt =====
-- The tables of internal/database/migrations/000001_baseline.up.sql as the Go stores scan them, and
-- the SQL statements that the stores share. Times are nanoseconds since 1970; a UUID is its
-- canonical text.
pub mod Tables
pub mod Sql
pub mod Counts

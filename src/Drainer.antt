-- ===== src/Drainer.antt =====
-- The drainer: crates/drainer, which moves queued database operations from Redis streams to Postgres.
pub mod Index
pub mod Streams
pub mod Entries
pub mod Handler
pub mod Kv
pub mod Shutdown

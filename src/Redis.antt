-- ===== src/Redis.antt =====
-- The Redis interface: crates/redis_interface.
pub mod Replies
pub mod Fred
pub mod Commands
pub mod Laws
pub mod Deletes
pub mod Json
pub mod Hashes
pub mod Groups

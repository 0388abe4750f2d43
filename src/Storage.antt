-- ===== src/Storage.antt =====
-- The caches in front of the database: crates/storage_impl.
pub mod Kind
pub mod Cache
pub mod StaticCache
pub mod Kv

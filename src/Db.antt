-- ===== src/Db.antt =====
-- Access to the database: crates/diesel_models/src/generics.rs over a connection of diesel.
pub mod Table
pub mod Generics
pub mod ById
pub mod Contents
pub mod Connections

-- ===== src/Config.antt =====
-- The configuration of the router and of the drainer: its values, their defaults, and the checks at
-- start-up. Of crates/router/src/configs and crates/data_models/src/configs, with the features that the router has
-- by default, kv_store and olap; and of crates/drainer/src/settings.rs.
pub mod Text
pub mod Settings
pub mod Checks
pub mod Defaults
pub mod Hashsets
pub mod Locks
pub mod DrainerChecks

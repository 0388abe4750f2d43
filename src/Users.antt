-- ===== src/Users.antt =====
-- Users and their invitations: crates/diesel_models/src/user and crates/modules/src/service/user.rs.
pub mod Rows
pub mod Service

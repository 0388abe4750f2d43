-- ===== src/ApiKeys.antt =====
-- API keys: crates/diesel_models/src/api_key, crates/modules/src/service/api_key.rs and
-- core/api_key.rs, and crates/data_models/src/api_key.rs.
pub mod Rows
pub mod Service
pub mod Plaintext
pub mod Create
pub mod Insert
pub mod Upsert
pub mod Authentication
pub mod Created

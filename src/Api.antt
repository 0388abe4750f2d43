-- ===== src/Api.antt =====
-- The errors of the API and how they become responses: crates/data_models/src/errors and
-- crates/api_models/src/errors.
pub mod Types
pub mod Errors
pub mod DeclaredCodes
pub mod Switch
pub mod Codes
pub mod Customers
pub mod StorageErrors
pub mod NotFound

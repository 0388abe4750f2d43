-- ===== src/Enums/Currency.antt =====
-- Currencies, their ISO 4217 codes and their minor units: crates/common_enums/src/enums.rs.
pub mod Types
pub mod Iso4217
pub mod ZeroDecimal
pub mod ThreeDecimal
pub mod Units
pub mod Codes
pub mod MinorUnits

-- ===== src/Enums/Country.antt =====
-- Countries and their ISO 3166-1 codes: crates/common_enums/src/enums.rs and transformers.rs.
pub mod Types
pub mod FromAlpha2
pub mod ToAlpha2
pub mod FromAlpha3
pub mod ToAlpha3
pub mod AlphaCodes
pub mod FromNumeric
pub mod ToNumeric
pub mod RoundTrip

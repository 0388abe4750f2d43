-- ===== src/Enums.antt =====
-- The enumerations of crates/common_enums.
pub mod Country
pub mod Currency
pub mod Payments

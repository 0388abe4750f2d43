-- ===== src/Enums/Payments.antt =====
-- Payment methods and the statuses of payments: crates/common_enums.
pub mod Methods
pub mod Statuses

-- ===== src/Scheduler.antt =====
-- crates/scheduler: the producer and consumer of delayed tasks.
pub mod Retry
pub mod ProcessTracker
pub mod Tasks
pub mod Batch
pub mod Store
pub mod Interface
pub mod Queue
pub mod Lock
pub mod Consumer
pub mod Implementation
pub mod Producer

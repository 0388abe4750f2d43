-- ===== src/Scheduler/Consumer/Fetch/Tasks.antt =====
-- The tasks that a consumer gets.
use mercado.Prelude.Results.{ok}
use mercado.Scheduler.Batch.{ProcessTrackerBatch}
use mercado.Prelude.{List, ◌≡◌}
use mercado.Scheduler.Consumer.{List, is_valid_business_status, ProcessTrackerBatch, ok}
use mercado.Scheduler.ProcessTracker.{process_started, ProcessTracker, is_valid_business_status}

module _ {Time Json : Type 0} where
  -- A task that the consumer runs: it is marked as started, and its business status is "Pending".
  abbrev pub IsRunnable : ProcessTracker Time Json → Type 0
  IsRunnable p = (p.status ≡ process_started) × (p.business_status ≡ "Pending")

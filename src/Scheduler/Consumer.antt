-- ===== src/Scheduler/Consumer.antt =====
-- The consumer: `get_batches` of crates/scheduler/src/utils.rs, `fetch_consumer_tasks`,
-- `consumer_error_handler` and `create_task` of crates/scheduler/src/consumer.rs, and
-- `execute_workflow` of crates/scheduler/src/consumer/workflows.rs.
pub mod Fetch
pub mod Workflow
use mercado.Errors.{ProcessTrackerError}
use mercado.Prelude.Results.{Result, ok, ◌>>=◌}
use mercado.Scheduler.Batch.{ProcessTrackerBatch}
use mercado.Redis.Fred.{Entries}
use mercado.Scheduler.Batch.Wire.{Codec, from_redis_stream_entry}
use mercado.Prelude.{List, String, ◌∷◌, Option, [], if◌then◌else◌, ◌++◌}
use mercado.Scheduler.ProcessTracker.{
  finish, process_started, ProcessTracker, is_valid_business_status,
}
use mercado.Scheduler.ProcessTracker.Update.{status_update}

abbrev pub valid_business_statuses : List String
valid_business_statuses = "Pending" ∷ []

module _ {Time Json : Type 0} where
  -- The `try_fold` over the entries: batches and ids, up to the first entry that is not a batch.
  unfoldable pub batches_of_entries :
      Codec Time Json
      → Entries (Option String)
      → Result ProcessTrackerError (List (ProcessTrackerBatch Time Json) × List String)
  unfolding from_redis_stream_entry
  batches_of_entries codec [] = ok ([], [])
  batches_of_entries codec ((entry_id, entry) ∷ entries) = do
    batch ← from_redis_stream_entry codec entry
    (batches, entry_ids) ← batches_of_entries codec entries
    ok (batch ∷ batches, entry_id ∷ entry_ids)

  -- The same over the streams of the response, flattened.
  unfoldable pub batches_of_response :
      Codec Time Json
      → List (String × Entries (Option String))
      → Result ProcessTrackerError (List (ProcessTrackerBatch Time Json) × List String)
  unfolding batches_of_entries
  batches_of_response codec [] = ok ([], [])
  batches_of_response codec ((stream, entries) ∷ response) = do
    (batches, entry_ids) ← batches_of_entries codec entries
    (more_batches, more_ids) ← batches_of_response codec response
    ok (batches ++ more_batches, entry_ids ++ more_ids)

  -- `filter(|task| task.is_valid_business_status(…))`
  unfoldable pub valid_tasks : List (ProcessTracker Time Json) → List (ProcessTracker Time Json)
  unfolding is_valid_business_status
  valid_tasks [] = []
  valid_tasks (task ∷ trackers) =
      let rest = valid_tasks trackers in
      if is_valid_business_status task valid_business_statuses then task ∷ rest else rest

  -- The fold over the batches.
  unfoldable pub tasks_of_batches :
      List (ProcessTrackerBatch Time Json) → List (ProcessTracker Time Json)
  unfolding valid_tasks
  tasks_of_batches [] = []
  tasks_of_batches (batch ∷ batches) = valid_tasks batch.trackers ++ tasks_of_batches batches

  unfoldable pub started : ProcessTracker Time Json → ProcessTracker Time Json
  started task = record task { status = process_started }

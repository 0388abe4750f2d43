-- ===== src/Scheduler/Consumer/Fetch.antt =====
-- `get_batches` and `fetch_consumer_tasks`: from the stream to the tasks that a consumer runs.
pub mod Tasks
use mercado.Redis.Fred.{Entries}
use mercado.Scheduler.Batch.{ProcessTrackerBatch}
use mercado.Errors.{ProcessTrackerError, RedisError}
use mercado.Prelude.Exec.{Exec, on_result, pure, ◌>>=◌, ◌>>◌, map_error, lift, raise}
use mercado.Prelude.Results.{Result, ok, err}
use mercado.Scheduler.Interface.{ProcessTrackerInterface}
use mercado.Scheduler.Consumer.{
  batches_of_response, started, tasks_of_batches, Result, ProcessTracker, ProcessTrackerBatch,
  ProcessTrackerError, Entries,
}
use mercado.Prelude.{String, List, Option, some, ◌∷◌, [], map, none}
use mercado.Redis.Commands.{
  RedisConnectionPool, stream_read_with_options, stream_acknowledge_entries, stream_delete_entries,
}
use mercado.Scheduler.Batch.Wire.{Codec}
use mercado.Redis.Replies.{undelivered_entry_id}
use mercado.Scheduler.ProcessTracker.{process_started, ProcessTracker}
use mercado.Scheduler.ProcessTracker.Update.{status_update}

module _ {W Time Json : Type 0} (codec : Codec Time Json) (conn : RedisConnectionPool W) where
  -- Entries are acknowledged and deleted before a task of them is run.
  take_batches :
      (stream_name group_name : String)
      → List (String × Entries (Option String))
      → Exec W ProcessTrackerError (List (ProcessTrackerBatch Time Json))
  unfolding batches_of_response stream_acknowledge_entries stream_delete_entries
  take_batches stream_name group_name response = do
    (batches, entry_ids) ← lift (batches_of_response codec response)
    map_error (λ _. ProcessTrackerError.batch_update_failed)
        (stream_acknowledge_entries conn stream_name group_name entry_ids)
    map_error (λ _. ProcessTrackerError.batch_delete_failed)
        (stream_delete_entries conn stream_name entry_ids)
    pure batches

  -- The arms of the match on the read.
  after_read :
      (stream_name group_name : String)
      → Result RedisError (List (String × Entries (Option String)))
      → Exec W ProcessTrackerError (List (ProcessTrackerBatch Time Json))
  unfolding take_batches
  after_read stream_name group_name (ok response) = take_batches stream_name group_name response
  after_read stream_name group_name (err RedisError.stream_empty_or_not_available) = pure []
  after_read stream_name group_name (err error) = raise ProcessTrackerError.batch_not_found

  unfoldable pub get_batches :
      (stream_name group_name consumer_name : String)
      → Exec W ProcessTrackerError (List (ProcessTrackerBatch Time Json))
  unfolding after_read stream_read_with_options
  get_batches stream_name group_name consumer_name =
      on_result
        (stream_read_with_options conn stream_name undelivered_entry_id (some 1) group_name
          consumer_name)
        (after_read stream_name group_name)

  -- The part after the early return for no batch.
  unfoldable pub start_tasks :
      ProcessTrackerInterface W Time Json
      → List (ProcessTracker Time Json)
      → Exec W ProcessTrackerError (List (ProcessTracker Time Json))
  unfolding started
  start_tasks db tasks = do
    map_error (λ _. ProcessTrackerError.process_fetching_failed)
        (db.process_tracker_update_process_status_by_ids (map (λ task. task.id) tasks)
          (status_update process_started none))
    pure (map started tasks)

  unfoldable pub start_batches :
      ProcessTrackerInterface W Time Json
      → List (ProcessTrackerBatch Time Json)
      → Exec W ProcessTrackerError (List (ProcessTracker Time Json))
  unfolding start_tasks tasks_of_batches
  start_batches db [] = pure []
  start_batches db (batch ∷ batches) = start_tasks db (tasks_of_batches (batch ∷ batches))

  unfoldable pub fetch_consumer_tasks :
      ProcessTrackerInterface W Time Json
      → (stream_name group_name consumer_name : String)
      → Exec W ProcessTrackerError (List (ProcessTracker Time Json))
  unfolding get_batches start_batches
  fetch_consumer_tasks db stream_name group_name consumer_name = do
    batches ← get_batches stream_name group_name consumer_name
    start_batches db batches

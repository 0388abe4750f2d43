-- ===== src/Scheduler/Producer.antt =====
-- The producer: `run_producer_flow` and `fetch_producer_tasks` of crates/scheduler/src/producer.rs, and
-- `divide_and_append_tasks` and `update_status_and_append` of crates/scheduler/src/utils.rs.
pub mod Due
use mathlib.Core.Option
pub mod Append
use mercado.Scheduler.Lock.{lock_acquire_release}
use mercado.Errors.{ProcessTrackerError}
use mercado.Prelude.Results.{Result, ok, err, ok_or}
use mercado.Prelude.Exec.{Exec, pure, ◌>>=◌, ◌>>◌, lift, map_error, on_result, raise}
use mercado.Config.Settings.{SchedulerSettings}
use mercado.Scheduler.Batch.{ProcessTrackerBatch, divide}
use mercado.Prelude.{List, String, Option, map, ◌∷◌, none, [], ◌++◌, some}
use mercado.Scheduler.Interface.{SchedulerInterface}
use mercado.Scheduler.Batch.Wire.{Codec, to_redis_field_value_pairs}
use mercado.Scheduler.ProcessTracker.{processing, pending, new, ProcessTracker}
use mercado.Scheduler.ProcessTracker.Update.{status_update}
use mercado.Redis.Replies.{auto_generated_id}

-- crates/scheduler/src/flow.rs
pub data SchedulerFlow : Type 0 where
  producer consumer cleaner : SchedulerFlow

module _ {W Time Json : Type 0} (codec : Codec Time Json)
    (db : SchedulerInterface W Time Json) where
  unfoldable pub fetch_producer_tasks :
      SchedulerSettings → Exec W ProcessTrackerError (List (ProcessTracker Time Json))
  fetch_producer_tasks conf w =
      (do
        time_upper_limit ← lift (
            ok_or (db.clock.checked_add (db.clock.now w) conf.producer.upper_fetch_limit)
              ProcessTrackerError.configuration_error)
        time_lower_limit ← lift (
            ok_or (db.clock.checked_sub (db.clock.now w) conf.producer.lower_fetch_limit)
              ProcessTrackerError.configuration_error)
        new_tasks ←
            map_error (λ _. ProcessTrackerError.process_fetching_failed)
              (db.tracker.find_processes_by_time_status time_lower_limit time_upper_limit new none)
        pending_tasks ←
            map_error (λ _. ProcessTrackerError.process_fetching_failed)
              (db.tracker.find_processes_by_time_status time_lower_limit time_upper_limit pending
                none)
        pure (new_tasks ++ pending_tasks))
        w

  -- The status update of the producer, before the append and again after one that failed.
  unfoldable pub mark_processing : List String → Exec W ProcessTrackerError (Unit {0})
  mark_processing process_ids = do
    map_error (λ _. ProcessTrackerError.process_update_failed)
        (db.tracker.process_tracker_update_process_status_by_ids process_ids
          (status_update processing none))
    pure tt

  -- The match on the flow.
  update_status : SchedulerFlow → List String → Exec W ProcessTrackerError (Unit {0})
  unfolding mark_processing
  update_status producer process_ids w = mark_processing process_ids w
  update_status cleaner process_ids w =
      (do
        map_error (λ _. ProcessTrackerError.process_update_failed)
            (db.tracker.reinitialize_limbo_processes process_ids (db.clock.now w))
        pure tt)
        w
  update_status consumer process_ids w = (err ProcessTrackerError.unexpected_flow, w)

  -- The match on the append: an error of the second update is only attached to the first error.
  after_append :
      List String → Result ProcessTrackerError (Unit {0}) → Exec W ProcessTrackerError (Unit {0})
  unfolding mark_processing
  after_append process_ids (ok x) = pure x
  after_append process_ids (err error) =
      on_result (mark_processing process_ids) (λ update_res. raise error)

  -- The append, and the update after one that failed.
  append_fields :
      List String
      → (stream_name : String) → (field_value_pairs : List (String × String))
      → Exec W ProcessTrackerError (Unit {0})
  unfolding after_append
  append_fields process_ids stream_name field_value_pairs =
      on_result
        (map_error (λ _. ProcessTrackerError.batch_insertion_failed)
          (db.queue.stream_append_entry stream_name auto_generated_id field_value_pairs))
        (after_append process_ids)

  unfoldable pub update_status_and_append :
      SchedulerFlow → ProcessTrackerBatch Time Json → Exec W ProcessTrackerError (Unit {0})
  unfolding update_status to_redis_field_value_pairs append_fields
  update_status_and_append flow pt_batch = do
    let process_ids = map (λ process. process.id) pt_batch.trackers
    update_status flow process_ids
    field_value_pairs ← lift (to_redis_field_value_pairs codec pt_batch)
    append_fields process_ids pt_batch.stream_name field_value_pairs

  -- The loop over the batches: an error is logged, and the next batch follows.
  unfoldable pub append_batches :
      SchedulerFlow → List (ProcessTrackerBatch Time Json) → Exec W ProcessTrackerError (Unit {0})
  unfolding update_status_and_append
  append_batches flow [] = pure tt
  append_batches flow (batch ∷ batches) =
      on_result (update_status_and_append flow batch) (λ result. append_batches flow batches)

  -- `divide` panics for batch size 0, and then nothing is returned: `none`.
  unfoldable pub divide_and_append_tasks :
      (batch_id : String)
      → SchedulerFlow
      → List (ProcessTracker Time Json)
      → SchedulerSettings
      → W
      → Option (Result ProcessTrackerError (Unit {0}) × W)
  unfolding append_batches
  divide_and_append_tasks batch_id flow tasks settings w =
      Option.map (λ batches. append_batches flow batches w)
        (divide batch_id (db.clock.now w) tasks settings)

  -- The closure that runs under the lock.
  append_fetched :
      (batch_id : String)
      → SchedulerSettings
      → Result ProcessTrackerError (List (ProcessTracker Time Json)) × W
      → Option (Result ProcessTrackerError (Unit {0}) × W)
  unfolding divide_and_append_tasks
  append_fetched batch_id settings (ok tasks, w) =
      divide_and_append_tasks batch_id producer tasks settings w
  append_fetched batch_id settings (err error, w) = some (err error, w)

  unfoldable pub run_producer_flow :
      (batch_id : String)
      → SchedulerSettings
      → W
      → Option (Result ProcessTrackerError (Unit {0}) × W)
  unfolding lock_acquire_release fetch_producer_tasks append_fetched
  run_producer_flow batch_id settings =
      lock_acquire_release db settings
        (λ w. append_fetched batch_id settings (fetch_producer_tasks settings w))

-- ===== src/Scheduler/Consumer/Workflow.antt =====
-- `execute_workflow`, `consumer_error_handler` and `create_task`: how the run of a task ends.
pub mod Ends
use mercado.Prelude.{◌∷◌, [], some}
use mercado.Errors.{ProcessTrackerError, StorageError}
use mercado.Prelude.Results.{Result, ok, err}
use mercado.Prelude.Exec.{Exec, on_result, ◌>>=◌, ◌>>◌, map_error, pure}
use mercado.Scheduler.Interface.{SchedulerInterface}
use mercado.Scheduler.ProcessTracker.{finish, ProcessTracker}
use mercado.Scheduler.ProcessTracker.Update.{status_update}

-- The trait `ProcessTrackerWorkflow`: what the router's workflows supply.
pub record ProcessTrackerWorkflow (W Time Json : Type 0) : Type 0 where
  pub execute_workflow : ProcessTracker Time Json → Exec W ProcessTrackerError (Unit {0})
  pub success_handler : ProcessTracker Time Json → W → W
  pub error_handler :
      ProcessTracker Time Json → ProcessTrackerError → Exec W ProcessTrackerError (Unit {0})

module _ {W Time Json : Type 0} (db : SchedulerInterface W Time Json) where
  -- The arms of the match on the error handler's result.
  after_error_handler :
      ProcessTracker Time Json
      → Result ProcessTrackerError (Unit {0})
      → Exec W ProcessTrackerError (Unit {0})
  after_error_handler process (ok x) = pure tt
  after_error_handler process (err error) =
      on_result (db.tracker.finish_process_with_business_status process "GLOBAL_FAILURE")
        (λ ignored. pure tt)

  -- The arms of the match on the workflow's result.
  after_workflow :
      ProcessTrackerWorkflow W Time Json
      → ProcessTracker Time Json
      → Result ProcessTrackerError (Unit {0})
      → Exec W ProcessTrackerError (Unit {0})
  unfolding after_error_handler
  after_workflow operation process (ok x) w = (ok tt, operation.success_handler process w)
  after_workflow operation process (err error) w =
      on_result (operation.error_handler process error) (after_error_handler process) w

  unfoldable pub execute_workflow :
      ProcessTrackerWorkflow W Time Json
      → ProcessTracker Time Json
      → Exec W ProcessTrackerError (Unit {0})
  unfolding after_workflow
  execute_workflow operation process =
      on_result (operation.execute_workflow process) (after_workflow operation process)

  unfoldable pub consumer_error_handler :
      ProcessTracker Time Json → ProcessTrackerError → Exec W ProcessTrackerError (Unit {0})
  consumer_error_handler process error = do
    map_error (λ _. ProcessTrackerError.process_update_failed)
        (db.tracker.process_tracker_update_process_status_by_ids (process.id ∷ [])
          (status_update finish (some "GLOBAL_ERROR")))
    pure tt

  unfoldable pub create_task : ProcessTracker Time Json → Exec W StorageError (Unit {0})
  create_task process_tracker_entry = do db.tracker.insert_process process_tracker_entry; pure tt

-- ===== src/Scheduler/Consumer/Workflow/Ends.antt =====
-- How the run of a task ends when its workflow and its error handler fail.
use mercado.Scheduler.Queue
use mercado.Scheduler.Store
use mercado.Prelude.Results.{err, ok, written}
use mercado.Prelude.{◌≡◌, refl}
use mercado.Errors.{ProcessTrackerError}
use mercado.Scheduler.Implementation.{scheduler_interface}
use mercado.Scheduler.Consumer.Workflow.{
  execute_workflow, ProcessTrackerWorkflow, ProcessTracker, ProcessTrackerError, err,
}
use mercado.Scheduler.Store.Laws.{TableLaws}
use mercado.Scheduler.Batch.Wire.{Codec}
use mercado.Scheduler.ProcessTracker.{finish, ProcessTracker}
use mercado.Scheduler.Store.Updates.{finish_process-rows, edit_task}

module _ {W Time Json : Type 0} (codec : Codec Time Json) (s : Queue.SchedulerStore W Time Json)
    (laws : TableLaws s.store) where
  -- On the store: when the workflow of a task fails and its error handler fails too, `execute_workflow`
  -- still succeeds, and finishes the rows with the task's id with the business status "GLOBAL_FAILURE",
  -- unless that update fails, which then changes no row.
  pub execute_workflow-finishes :
      (operation : ProcessTrackerWorkflow W Time Json) (process : ProcessTracker Time Json) (w : W)
      (e e' : ProcessTrackerError)
      → let (run, w1) = operation.execute_workflow process w in
        let (handled, w2) = operation.error_handler process e w1 in
        run ≡ err e
        → handled ≡ err e'
        → let (r, w') = execute_workflow (scheduler_interface codec s) operation process w in
          let updated =
            (Store.finish_process_with_business_status s.store process "GLOBAL_FAILURE" w2).0 in
          (r ≡ ok tt)
          × (laws.rows w'
              ≡ written updated
                  (edit_task process
                    (λ p. record p {
                      status = finish;
                      business_status = "GLOBAL_FAILURE";
                      updated_at = s.store.clock.now w2;
                    })
                    (laws.rows w2))
                  (laws.rows w2))
  unfolding execute_workflow scheduler_interface Queue.tracker_interface
  execute_workflow-finishes operation process w e e' h h' =
      let w2 = (operation.error_handler process e (operation.execute_workflow process w).1).1 in
      rw (h, h') (refl, finish_process-rows s.store laws process "GLOBAL_FAILURE" w2)

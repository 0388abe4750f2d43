-- ===== src/Tests/Updates.antt =====
-- Instances for the updates of one task.
use mercado.Prelude.Int.{add_i32, pos}
use mercado.Prelude.{◌≡◌, some, ◌∷◌, [], refl}
use mercado.Scheduler.Tasks
use mercado.Scheduler.Store.{reset_process, retry_process, finish_process_with_business_status}
use mercado.Prelude.Results.{written}
use mercado.Scheduler.Store.Updates.{
  edit_task, reset_process-rows, retry_process-rows, finish_process-rows,
}
use mercado.Scheduler.ProcessTracker.{pending, new, finish}
use mercado.Tests.Database.{memory_store, memory_laws, task, two_tasks}

retry_process-rows_example :
    let (r, w') = retry_process memory_store (task "a") 9000 two_tasks in
    w'.rows
    ≡ written r
        (edit_task
          (task "a")
          (λ p. record p {
            status = pending;
            retry_count = add_i32 (pos 0) (pos 1);
            schedule_time = some 9000;
            updated_at = 6000;
          })
          two_tasks.rows)
        two_tasks.rows
unfolding memory_laws
retry_process-rows_example = retry_process-rows memory_store memory_laws (task "a") 9000 two_tasks

reset_process-rows_example :
    let (r, w') = reset_process memory_store (task "a") 9000 two_tasks in
    w'.rows
    ≡ written r
        (edit_task
          (task "a")
          (λ p. record p {
            status = new;
            retry_count = pos 0;
            schedule_time = some 9000;
            updated_at = 6000;
          })
          two_tasks.rows)
        two_tasks.rows
unfolding memory_laws
reset_process-rows_example = reset_process-rows memory_store memory_laws (task "a") 9000 two_tasks

finish_process-rows_example :
    let (r, w') =
      finish_process_with_business_status memory_store (task "a") "COMPLETED" two_tasks in
    w'.rows
    ≡ written r
        (edit_task
          (task "a")
          (λ p. record p { status = finish; business_status = "COMPLETED"; updated_at = 6000 })
          two_tasks.rows)
        two_tasks.rows
unfolding memory_laws
finish_process-rows_example =
    finish_process-rows memory_store memory_laws (task "a") "COMPLETED" two_tasks

-- The row "a" is found, and it alone changes.
retried :
    (retry_process memory_store (task "a") 9000 two_tasks).1.rows
    ≡ (record (task "a") {
      status = pending;
      retry_count = pos 1;
      schedule_time = some 9000;
      updated_at = 6000;
    })
      ∷ task "b"
      ∷ []
unfolding retry_process add_i32 Tasks.update
retried = refl

-- ===== src/Tests/Scheduling.antt =====
-- Instances for the lock, the producer and the consumer.
use mercado.Scheduler.Lock.Exclusion.{Shared}
use mercado.Scheduler.Lock.Exclusion.{Run-excludes, acquire, then, start, enters, stays_out}
use mercado.Scheduler.Queue.{acquire_pt_lock}
use mercado.Scheduler.Batch.Wire.RoundTrip.{delivered}
use mercado.Redis.Commands.{RedisConnectionPool}
use mercado.Scheduler.Store.Updates.{edit_task}
use mercado.Prelude.Exec.{raise}
use mercado.Errors.{ProcessTrackerError}
use mercado.Prelude.Int.{pos}
use mercado.Tests.Database.{task, two_tasks}
use mercado.Tests.Batches.{codec, settings, batch, batch_fields}
use mercado.Prelude.Results.{Result, ok, written}
use mercado.Scheduler.Lock.{lock_acquire_release}
use mercado.Scheduler.Consumer.Workflow.{ProcessTrackerWorkflow, execute_workflow}
use mercado.Prelude.{All, Option, ℕ, String, ◌∷◌, ◌≡◌, [], some, none, refl, arith, ◌≤◌}
use mercado.Scheduler.Implementation.{scheduler_interface}
use mercado.Tests.SchedulerStore.{
  World, world_keys, world_laws, idle, locked, scheduler_store, world_store, world_tracker,
  world_pool,
}
use mercado.Scheduler.Interface.{SchedulerInterface}
use mercado.Redis.Replies.{string, null, integer}
use mercado.Scheduler.Lock.Release.{
  lock_acquire_release-excludes, lock_acquire_release-runs, expire_lock, set_lock,
}
use mercado.Scheduler.Producer.Due.{fetch_producer_tasks-IsDue, IsDue}
use mercado.Scheduler.Producer.Append.{update_status_and_append-marks, IsMarked}
use mercado.Scheduler.Consumer.Workflow.Ends.{execute_workflow-finishes}
use mercado.Scheduler.ProcessTracker.{finish, new}
use mercado.Scheduler.Producer.{producer, update_status_and_append}
use mercado.Scheduler.Store
use mercado.Scheduler.Tasks
use mercado.Scheduler.Producer.{fetch_producer_tasks, mark_processing}

abbrev db : SchedulerInterface World ℕ String
db = scheduler_interface codec scheduler_store

abbrev done : World → Option (Result ProcessTrackerError (Unit {0}) × World)
done w = some (ok tt, w)

lock_acquire_release-excludes_example :
    (lock_acquire_release db settings done locked ≡ some (ok tt, locked))
    × ((k : String) → locked.server.keys k ≡ locked.server.keys k)
unfolding world_keys
lock_acquire_release-excludes_example =
    lock_acquire_release-excludes codec scheduler_store world_keys settings done locked null
      "LOCKED" refl refl refl

lock_acquire_release-runs_example :
    let w1 =
      (expire_lock codec scheduler_store world_keys settings
        (set_lock codec scheduler_store world_keys settings idle).1).1 in
    (w1.server.keys settings.producer.lock_key ≡ some "LOCKED")
    × ((w' : World) × (lock_acquire_release db settings done idle ≡ some (ok tt, w'))
        × (w'.server.keys settings.producer.lock_key ≡ none))
unfolding world_keys
lock_acquire_release-runs_example =
    lock_acquire_release-runs codec scheduler_store world_keys settings done idle (string "OK")
      (integer (pos 1)) (ok tt) _ refl refl refl (omega arith) refl refl refl refl

-- One new task is due.
abbrev due : World
due = record idle {
  memory = record { rows = record (task "a") { status = new } ∷ task "b" ∷ []; time = 6000 };
}

fetch_producer_tasks-IsDue_example :
    (lower : ℕ) × (upper : ℕ) × (db.clock.checked_sub 6000 (pos 1800) ≡ some lower)
    × (db.clock.checked_add 6000 (pos 0) ≡ some upper)
    × All (IsDue codec db world_tracker lower upper) (record (task "a") { status = new } ∷ [])
unfolding scheduler_interface fetch_producer_tasks Store.find_processes_by_time_status
    Tasks.find_processes_by_time_status
fetch_producer_tasks-IsDue_example =
    fetch_producer_tasks-IsDue codec db world_tracker settings due
      (record (task "a") { status = new } ∷ []) refl

update_status_and_append-marks_example :
    All
      (IsMarked codec db world_tracker ("a" ∷ []))
      (world_tracker.rows (update_status_and_append codec db producer batch idle).1)
unfolding mark_processing scheduler_interface Store.process_tracker_update_process_status_by_ids
    Tasks.update_process_status_by_ids
update_status_and_append-marks_example =
    update_status_and_append-marks codec db world_tracker batch idle refl

abbrev failing : ProcessTrackerWorkflow World ℕ String
failing = record {
  execute_workflow = λ p. raise ProcessTrackerError.not_implemented;
  success_handler = λ p w. w;
  error_handler = λ p e. raise ProcessTrackerError.not_implemented;
}

execute_workflow-finishes_example :
    let (r, w) = execute_workflow db failing (task "a") idle in
    let updated =
      (Store.finish_process_with_business_status world_store (task "a") "GLOBAL_FAILURE" idle).0 in
    (r ≡ ok tt)
    × (w.memory.rows
        ≡ written updated
            (edit_task
              (task "a")
              (λ p. record p {
                status = finish;
                business_status = "GLOBAL_FAILURE";
                updated_at = 6000;
              })
              two_tasks.rows)
            two_tasks.rows)
unfolding world_laws
execute_workflow-finishes_example =
    execute_workflow-finishes codec scheduler_store world_laws failing (task "a") idle
      ProcessTrackerError.not_implemented ProcessTrackerError.not_implemented refl refl

-- Redis delivers one entry with the batch of task "a".
abbrev delivering : RedisConnectionPool World
delivering = record {
  pool = record world_pool {
    xreadgroup_map = λ group consumer count stream id w.
        (ok ((stream, ("1-0", delivered batch_fields) ∷ []) ∷ []), w);
  };
  default_ttl = 300;
  default_stream_read_count = 1;
}

abbrev entered : World
entered = (acquire scheduler_store world_keys settings idle).1

abbrev apart : Shared scheduler_store world_keys settings
apart = record { world = idle; inside = 0 }

abbrev one_inside : Shared scheduler_store world_keys settings
one_inside = record { world = (acquire scheduler_store world_keys settings entered).1; inside = 1 }

-- One producer enters, and another stays out.
Run-excludes_example : one_inside.inside ≤ 1
unfolding acquire_pt_lock
Run-excludes_example =
    Run-excludes scheduler_store world_keys settings {a = apart} {b = one_inside} (omega arith) refl
      (then (then start (enters refl)) (stays_out (λ h. cc)))

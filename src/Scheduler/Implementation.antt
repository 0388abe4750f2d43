-- ===== src/Scheduler/Implementation.antt =====
-- `impl SchedulerInterface for Store`: the methods of the queue and of the table of tasks together.
pub mod Fills
use mercado.Scheduler.Consumer.Fetch.{fetch_consumer_tasks}
use mercado.Scheduler.ProcessTracker.{ProcessTracker}
use mercado.Errors.{ProcessTrackerError}
use mercado.Prelude.Exec.{Exec, ◌>>=◌, map_error}
use mercado.Scheduler.Interface.{SchedulerInterface}
use mercado.Prelude.{String, List}
use mercado.Scheduler.Batch.Wire.{Codec}
use mercado.Scheduler.Queue

module _ {W Time Json : Type 0} (codec : Codec Time Json)
    (s : Queue.SchedulerStore W Time Json) where
  unfoldable pub store_fetch_consumer_tasks :
      (stream_name group_name consumer_name : String)
      → Exec W ProcessTrackerError (List (ProcessTracker Time Json))
  unfolding Queue.get_redis_conn Queue.tracker_interface
  store_fetch_consumer_tasks stream_name group_name consumer_name = do
    conn ← map_error ProcessTrackerError.e_redis_error (Queue.get_redis_conn s)
    fetch_consumer_tasks codec conn (Queue.tracker_interface s) stream_name group_name consumer_name

  unfoldable pub scheduler_interface : SchedulerInterface W Time Json
  unfolding store_fetch_consumer_tasks Queue.tracker_interface
  scheduler_interface = record {
    tracker = Queue.tracker_interface s;
    queue = record {
      fetch_consumer_tasks = store_fetch_consumer_tasks;
      consumer_group_create = Queue.consumer_group_create s;
      acquire_pt_lock = Queue.acquire_pt_lock s;
      release_pt_lock = Queue.release_pt_lock s;
      stream_append_entry = Queue.stream_append_entry s;
      get_key = Queue.get_key s;
    };
    clock = s.store.clock;
  }

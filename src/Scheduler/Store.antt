-- ===== src/Scheduler/Store.antt =====
-- `impl ProcessTrackerInterface for Store`: crates/scheduler/src/db/process_tracker.rs, with the
-- connections of crates/storage_impl/src/connection.rs. With the crate's features (olap and oltp) reads
-- go to the master pool too. Taking a connection is the bb8 crate's, and a field here.
pub mod Laws
pub mod Updates
use mercado.Prelude.Int.{ℤ, add_i32, pos}
use mercado.Errors.{StorageError}
use mercado.Prelude.{List, Option, String, ℕ, some}
use mercado.Prelude.Exec.{Exec, map_error, ◌>>=◌, ◌>>◌, pure}
use Prim.Native.String.{String}
use mercado.Scheduler.ProcessTracker.{ProcessTracker, ProcessTrackerStatus, new, pending, finish}
use mercado.Scheduler.ProcessTracker.Update.{
  ProcessTrackerUpdate, status_update, status_retry_update,
}
use mercado.Scheduler.Tasks
use mercado.Scheduler.Tasks.{TaskTable, Clock}

pub record Store (W Time Json : Type 0) : Type 0 where
  pub table : TaskTable W Time Json
  pub clock : Clock W Time
  -- `pool.get()` of the master pool
  pub master_pool_get : Exec W (Unit {0}) (Unit {0})

module _ {W Time Json : Type 0} (store : Store W Time Json) where
  unfoldable pub pg_connection_read : Exec W StorageError (Unit {0})
  pg_connection_read = map_error (λ _. StorageError.database_connection_error) store.master_pool_get

  unfoldable pub pg_connection_write : Exec W StorageError (Unit {0})
  pg_connection_write =
      map_error (λ _. StorageError.database_connection_error) store.master_pool_get

  unfoldable pub find_process_by_id :
      String → Exec W StorageError (Option (ProcessTracker Time Json))
  unfolding pg_connection_read
  find_process_by_id id = do
    pg_connection_read
    map_error StorageError.database_error (Tasks.find_process_by_id store.table id)

  unfoldable pub reinitialize_limbo_processes : List String → Time → Exec W StorageError ℕ
  unfolding pg_connection_write
  reinitialize_limbo_processes ids schedule_time = do
    pg_connection_write
    map_error StorageError.database_error
        (Tasks.reinitialize_limbo_processes store.table ids schedule_time)

  unfoldable pub find_processes_by_time_status :
      (time_lower_limit time_upper_limit : Time)
      → ProcessTrackerStatus
      → (limit : Option ℤ) → Exec W StorageError (List (ProcessTracker Time Json))
  unfolding pg_connection_read
  find_processes_by_time_status lower upper status limit = do
    pg_connection_read
    map_error StorageError.database_error
        (Tasks.find_processes_by_time_status store.table store.clock lower upper status limit)

  unfoldable pub insert_process :
      ProcessTracker Time Json → Exec W StorageError (ProcessTracker Time Json)
  unfolding pg_connection_write
  insert_process process = do
    pg_connection_write
    map_error StorageError.database_error (Tasks.insert_process store.table process)

  unfoldable pub update_process :
      ProcessTracker Time Json
      → ProcessTrackerUpdate Time Json
      → Exec W StorageError (ProcessTracker Time Json)
  unfolding pg_connection_write
  update_process this process = do
    pg_connection_write
    map_error StorageError.database_error (Tasks.update store.table store.clock this process)

  unfoldable pub reset_process : ProcessTracker Time Json → Time → Exec W StorageError (Unit {0})
  unfolding update_process
  reset_process this schedule_time = do
    update_process this (status_retry_update new (pos 0) schedule_time)
    pure tt

  unfoldable pub retry_process : ProcessTracker Time Json → Time → Exec W StorageError (Unit {0})
  unfolding update_process
  retry_process this schedule_time = do
    let retry_count = add_i32 this.retry_count (pos 1)
    update_process this (status_retry_update pending retry_count schedule_time)
    pure tt

  unfoldable pub finish_process_with_business_status :
      ProcessTracker Time Json → String → Exec W StorageError (Unit {0})
  unfolding update_process
  finish_process_with_business_status this business_status = do
    update_process this (status_update finish (some business_status))
    pure tt

  unfoldable pub process_tracker_update_process_status_by_ids :
      List String → ProcessTrackerUpdate Time Json → Exec W StorageError ℕ
  unfolding pg_connection_write
  process_tracker_update_process_status_by_ids task_ids task_update = do
    pg_connection_write
    map_error StorageError.database_error
        (Tasks.update_process_status_by_ids store.table store.clock task_ids task_update)

-- ===== src/Scheduler/Interface/Laws.antt =====
-- What the clients of the scheduler's interface rely on.
use mercado.Prelude.Int.{ℤ}
use mercado.Redis.Replies.{RedisEntryId}
use mercado.Scheduler.Tasks.{eq_any, between}
use mercado.Scheduler.Store.Laws.{update_rows}
use mercado.Prelude.Results.{written, ok}
use mercado.Scheduler.ProcessTracker.Update.{status_update, from_update}
use mercado.Scheduler.ProcessTracker.{ProcessTracker, ProcessTrackerStatus}
use mercado.Prelude.{List, String, Option, ◌≡◌, All, true}
use mercado.Scheduler.Interface.{
  SchedulerInterface, List, ProcessTracker, ProcessTrackerStatus, RedisEntryId, ℤ,
}

-- The status updates and the searches of the table of tasks: `rows w` is the table in the world `w`.
pub record TrackerLaws {W Time Json : Type 0} (db : SchedulerInterface W Time Json) : Type 0 where
  pub rows : W → List (ProcessTracker Time Json)
  pub update_status_rows :
      (ids : List String) (status : ProcessTrackerStatus) (business_status : Option String) (w : W)
      → let u = status_update status business_status in
        let (r, w') = db.tracker.process_tracker_update_process_status_by_ids ids u w in
        rows w'
        ≡ written r
            (update_rows (λ p. eq_any ids p.id) (from_update (db.clock.now w) u) (rows w))
            (rows w)
  pub append_keeps :
      (stream : String) (id : RedisEntryId) (fields : List (String × String)) (w : W)
      → rows (db.queue.stream_append_entry stream id fields w).1 ≡ rows w
  pub find_passes :
      (lower upper : Time) (status : ProcessTrackerStatus) (limit : Option ℤ) (w : W)
      {ps : List (ProcessTracker Time Json)}
      → (db.tracker.find_processes_by_time_status lower upper status limit w).0 ≡ ok ps
      → All
          (λ p.
            (p.status ≡ status) × (between db.clock.leb_time lower upper p.schedule_time ≡ true))
          ps

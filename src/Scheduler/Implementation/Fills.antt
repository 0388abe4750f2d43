-- ===== src/Scheduler/Implementation/Fills.antt =====
-- The store keeps what the clients of the scheduler's interface rely on.
use mercado.Scheduler.Queue
use mercado.Redis.Commands
use mercado.Scheduler.Store
use mercado.Scheduler.Tasks
use mercado.Scheduler.Tasks.{eq_any, between}
use mercado.Prelude.Int.{ℤ}
use mercado.Prelude.Results.{written, ok}
use mercado.Scheduler.Interface.Laws.{TrackerLaws}
use mercado.Scheduler.Implementation.{scheduler_interface, ProcessTracker}
use mercado.Db.Generics.{generic_filter, generic_update}
use mercado.Redis.Replies.{Xid, RedisEntryId, to_xid}
use mercado.Scheduler.Batch.Wire.{Codec}
use mercado.Prelude.{
  Bool, ◌≡◌, String, true, ◌&&◌, false, List, refl, Option, All, arith, none, All-map,
}
use mercado.Scheduler.Store.Laws.{TableLaws, update_rows}
use mercado.Scheduler.ProcessTracker.{status_eq, ProcessTrackerStatus, ProcessTracker}
use mercado.Scheduler.ProcessTracker.Update.{status_update, from_update}

status_eq→eq : (a b : ProcessTrackerStatus) → status_eq a b ≡ true → a ≡ b
unfolding status_eq
status_eq→eq a b h = ground arith

and-true : (a b : Bool) → (a && b) ≡ true → (a ≡ true) × (b ≡ true)
and-true true b h = (refl, h)
and-true false b h = absurd (ground arith)

module _ {W Time Json : Type 0} (codec : Codec Time Json) (s : Queue.SchedulerStore W Time Json)
    (laws : TableLaws s.store)
    (xadd_keeps : (stream : String) (id : Xid) (fields : List (String × String)) (w : W)
      → laws.rows (s.redis_conn.pool.xadd stream id fields w).1 ≡ laws.rows w) where
  update_status-rows :
      (ids : List String) (status : ProcessTrackerStatus) (business_status : Option String) (w : W)
      → let u = status_update status business_status in
        let (r, w') = Store.process_tracker_update_process_status_by_ids s.store ids u w in
        laws.rows w'
        ≡ written r
            (update_rows (λ p. eq_any ids p.id) (from_update (s.store.clock.now w) u) (laws.rows w))
            (laws.rows w)
  unfolding Store.process_tracker_update_process_status_by_ids Store.pg_connection_write
      Tasks.update_process_status_by_ids generic_update
  update_status-rows ids status business_status w =
      let w1 = (s.store.master_pool_get w).1 in
      ground (
        arith,
        laws.connect_keeps w,
        laws.connect_now w,
        laws.update_where_rows (λ p. eq_any ids p.id)
            (from_update (s.store.clock.now w1) (status_update status business_status)) w1,
      )

  append-rows :
      (stream : String) (id : RedisEntryId) (fields : List (String × String)) (w : W)
      → laws.rows (Queue.stream_append_entry s stream id fields w).1 ≡ laws.rows w
  unfolding Queue.stream_append_entry Queue.get_redis_conn Commands.stream_append_entry
  append-rows stream id fields w = ground (arith, xadd_keeps stream (to_xid id) fields w)

  find-passes :
      (lower upper : Time) (status : ProcessTrackerStatus) (limit : Option ℤ) (w : W)
      (ps : List (ProcessTracker Time Json))
      → (Store.find_processes_by_time_status s.store lower upper status limit w).0 ≡ ok ps
      → All
          (λ p.
            (p.status ≡ status)
            × (between s.store.clock.leb_time lower upper p.schedule_time ≡ true))
          ps
  unfolding Store.find_processes_by_time_status Store.pg_connection_read
      Tasks.find_processes_by_time_status generic_filter
  find-passes lower upper status limit w ps h =
      let w1 = (s.store.master_pool_get w).1 in
      let test : ProcessTracker Time Json → Bool = λ p.
        between s.store.clock.leb_time lower upper p.schedule_time && status_eq p.status status in
      let found : (s.store.table.get_results test limit none w1).0 ≡ ok ps = ground arith in
      All-map (λ p. test p ≡ true) _ ps
        (λ p t. (status_eq→eq p.status status (and-true _ _ t).1, (and-true _ _ t).0))
        (laws.get_results_pass test limit none w1 found)

  pub store-TrackerLaws : TrackerLaws (scheduler_interface codec s)
  unfolding scheduler_interface
  store-TrackerLaws = record {
    rows = laws.rows;
    update_status_rows = update_status-rows;
    append_keeps = append-rows;
    find_passes = λ lower upper status limit w h. find-passes lower upper status limit w _ h;
  }

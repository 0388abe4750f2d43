-- ===== src/Scheduler/Store/Updates.antt =====
-- What `reset_process`, `retry_process` and `finish_process_with_business_status` do to the table.

use mercado.Prelude.Results.{written}
use mercado.Prelude.Int.{add_i32, pos}
use mercado.Prelude.{◌≡◌, some, str_eq, arith, List, map, if◌then◌else◌, ◌∷◌, [], refl, String}
use mercado.Scheduler.ProcessTracker.{ProcessTracker, ProcessTrackerStatus, pending, new, finish}
use mercado.Scheduler.ProcessTracker.Update.{
  ProcessTrackerUpdate, from_update, ProcessTrackerUpdateInternal, status_retry_update,
  status_update,
}
use mercado.Scheduler.Tasks
use mercado.Scheduler.Store.{
  Store, retry_process, update_process, add_i32, finish_process_with_business_status, reset_process,
}
use mercado.Scheduler.Store.Laws.{TableLaws, update_rows, apply_changes}

-- The rows with the id of `this` get `edit`, and no other row changes.
abbrev pub edit_task :
    {Time Json : Type 0}
    → ProcessTracker Time Json
    → (ProcessTracker Time Json → ProcessTracker Time Json)
    → List (ProcessTracker Time Json)
    → List (ProcessTracker Time Json)
edit_task this edit ps = map (λ p. if str_eq p.id this.id then edit p else p) ps

update_rows-eq-edit_task :
    {Time Json : Type 0} (this : ProcessTracker Time Json)
    (c : ProcessTrackerUpdateInternal Time Json) (ps : List (ProcessTracker Time Json))
    → update_rows (λ p. str_eq p.id this.id) c ps ≡ edit_task this (apply_changes c) ps
update_rows-eq-edit_task this c [] = refl
update_rows-eq-edit_task this c (p ∷ ps) = rw (update_rows-eq-edit_task this c ps)

module _ {W Time Json : Type 0} (store : Store W Time Json) (laws : TableLaws store) where
  -- An update writes its changeset to the rows with the task's id; after an error no row has changed.
  tasks_update-rows :
      (this : ProcessTracker Time Json) (u : ProcessTrackerUpdate Time Json)
      (c : ProcessTrackerUpdateInternal Time Json) (s : ProcessTrackerStatus) (w : W)
      → from_update (store.clock.now w) u ≡ c
      → c.status ≡ some s
      → let (r, w') = Tasks.update store.table store.clock this u w in
        laws.rows w'
        ≡ written r (update_rows (λ p. str_eq p.id this.id) c (laws.rows w)) (laws.rows w)
  unfolding Tasks.update
  tasks_update-rows this u c s w e some_status =
      rw e (ground (arith, laws.update_by_id_rows this.id c w, laws.update_by_id_empty this.id c w))

  update_process-rows :
      (this : ProcessTracker Time Json) (u : ProcessTrackerUpdate Time Json)
      (c : ProcessTrackerUpdateInternal Time Json) (s : ProcessTrackerStatus) (w : W)
      → from_update (store.clock.now w) u ≡ c
      → c.status ≡ some s
      → let (r, w') = update_process store this u w in
        laws.rows w'
        ≡ written r (update_rows (λ p. str_eq p.id this.id) c (laws.rows w)) (laws.rows w)
  unfolding update_process
  update_process-rows this u c s w e some_status =
      let w1 = (store.master_pool_get w).1 in
      let e1 : from_update (store.clock.now w1) u ≡ c = rw (laws.connect_now w) e in
      ground (arith, laws.connect_keeps w, tasks_update-rows this u c s w1 e1 some_status)

  update_process-edits :
      (this : ProcessTracker Time Json) (u : ProcessTrackerUpdate Time Json)
      (s : ProcessTrackerStatus) (w : W)
      → (from_update (store.clock.now w) u).status ≡ some s
      → let (r, w') = update_process store this u w in
        laws.rows w'
        ≡ written r
            (edit_task this (apply_changes (from_update (store.clock.now w) u)) (laws.rows w))
            (laws.rows w)
  update_process-edits this u s w some_status =
      let c : ProcessTrackerUpdateInternal Time Json = from_update (store.clock.now w) u in
      rw (← update_rows-eq-edit_task this c (laws.rows w))
        (update_process-rows this u c s w refl some_status)

  -- A successful retry makes the rows with the task's id pending, at the new time, with the retry count
  -- of the task in hand plus one (in `i32`); a failed one changes no row.
  pub retry_process-rows :
      (this : ProcessTracker Time Json) (schedule_time : Time) (w : W)
      → let (r, w') = retry_process store this schedule_time w in
        laws.rows w'
        ≡ written r
            (edit_task this
              (λ p. record p {
                status = pending;
                retry_count = add_i32 this.retry_count (pos 1);
                schedule_time = some schedule_time;
                updated_at = store.clock.now w;
              })
              (laws.rows w))
            (laws.rows w)
  unfolding retry_process from_update
  retry_process-rows this schedule_time w =
      let u : ProcessTrackerUpdate Time Json =
        status_retry_update pending (add_i32 this.retry_count (pos 1)) schedule_time in
      ground (arith, update_process-edits this u pending w refl)

  -- A successful reset makes the rows with the task's id new, at the new time, with no retries; a failed
  -- one changes no row.
  pub reset_process-rows :
      (this : ProcessTracker Time Json) (schedule_time : Time) (w : W)
      → let (r, w') = reset_process store this schedule_time w in
        laws.rows w'
        ≡ written r
            (edit_task this
              (λ p. record p {
                status = new;
                retry_count = pos 0;
                schedule_time = some schedule_time;
                updated_at = store.clock.now w;
              })
              (laws.rows w))
            (laws.rows w)
  unfolding reset_process from_update
  reset_process-rows this schedule_time w =
      let u : ProcessTrackerUpdate Time Json = status_retry_update new (pos 0) schedule_time in
      ground (arith, update_process-edits this u new w refl)

  -- Finishing a task gives the rows with its id the status Finish and the business status; a failed call
  -- changes no row.
  pub finish_process-rows :
      (this : ProcessTracker Time Json) (business_status : String) (w : W)
      → let (r, w') = finish_process_with_business_status store this business_status w in
        laws.rows w'
        ≡ written r
            (edit_task this
              (λ p. record p {
                status = finish;
                business_status = business_status;
                updated_at = store.clock.now w;
              })
              (laws.rows w))
            (laws.rows w)
  unfolding finish_process_with_business_status from_update
  finish_process-rows this business_status w =
      let u : ProcessTrackerUpdate Time Json = status_update finish (some business_status) in
      ground (arith, update_process-edits this u finish w refl)

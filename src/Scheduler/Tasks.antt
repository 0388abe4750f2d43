-- ===== src/Scheduler/Tasks.antt =====
-- crates/diesel_models/src/query.rs: the statements on the table of tasks. The clock and the order of
-- times are the time crate's, and parameters.
use mercado.Prelude.Int.{ℤ}
use mercado.Prelude.Results.{Result, err, ok}
use mercado.Errors.{DatabaseError}
use mercado.Prelude.{
  Bool, List, Option, String, false, true, ℕ, ◌∷◌, [], if◌then◌else◌, some, str_eq, ◌&&◌, none,
  ◌||◌, take,
}
use Prim.Native.String.{String, ◌∷◌}
use mercado.Prelude.Exec.{Exec, pure, lift, on_result, ◌>>=◌}
use mercado.Db.Table.{Table}
use mercado.Db.Generics.{
  generic_insert, generic_update, generic_update_by_id, generic_find_by_id_optional, generic_filter,
}
use mercado.Scheduler.ProcessTracker.{
  ProcessTracker, ProcessTrackerStatus, process_started, processing, status_eq,
}
use mercado.Scheduler.ProcessTracker.Update.{
  ProcessTrackerUpdate, ProcessTrackerUpdateInternal, from_update,
}

abbrev pub TaskTable : Type 0 → Type 0 → Type 0 → Type 0
TaskTable W Time Json =
    Table W (ProcessTracker Time Json) (ProcessTracker Time Json)
      (ProcessTrackerUpdateInternal Time Json)

-- `date_time::now()`, comparison, and `checked_add` and `checked_sub` of a number of seconds.
pub record Clock (W Time : Type 0) : Type 0 where
  pub now : W → Time
  pub leb_time : Time → Time → Bool
  pub checked_add : Time → ℤ → Option Time
  pub checked_sub : Time → ℤ → Option Time

-- `dsl::id.eq_any(ids)`
unfoldable pub eq_any : List String → String → Bool
eq_any [] id = false
eq_any (x ∷ ids) id = str_eq x id || eq_any ids id

module _ {Time : Type 0} where
  -- `schedule_time.between(lower, upper)`: no row without a schedule time.
  unfoldable pub between : (Time → Time → Bool) → Time → Time → Option Time → Bool
  between leb_time lower upper none = false
  between leb_time lower upper (some t) = leb_time lower t && leb_time t upper

  -- `Option<PrimitiveDateTime>::cmp`, as "not greater": `None` is the least.
  unfoldable pub leb_schedule : (Time → Time → Bool) → Option Time → Option Time → Bool
  leb_schedule leb_time none b = true
  leb_schedule leb_time (some a) none = false
  leb_schedule leb_time (some a) (some b) = leb_time a b

-- The WHERE clause compares a runner that may be NULL with a given one.
unfoldable pub runner_is : String → Option String → Bool
runner_is runner none = false
runner_is runner (some r) = str_eq r runner

module _ {Time Json : Type 0} where
  -- The arm for `NoFieldsToUpdate` returns the row as the caller has it.
  unless_no_fields :
      ProcessTracker Time Json
      → Result DatabaseError (ProcessTracker Time Json)
      → Result DatabaseError (ProcessTracker Time Json)
  unless_no_fields this (err DatabaseError.no_fields_to_update) = ok this
  unless_no_fields this result = result

  -- `sort_by`, which is stable: a row goes before the rows that are not smaller.
  unfoldable pub insert_by_schedule :
      (Time → Time → Bool)
      → ProcessTracker Time Json
      → List (ProcessTracker Time Json)
      → List (ProcessTracker Time Json)
  unfolding leb_schedule
  insert_by_schedule leb_time p [] = p ∷ []
  insert_by_schedule leb_time p (q ∷ qs) =
      if leb_schedule leb_time p.schedule_time q.schedule_time
      then p ∷ q ∷ qs
      else q ∷ insert_by_schedule leb_time p qs

  unfoldable pub sort_by_schedule :
      (Time → Time → Bool) → List (ProcessTracker Time Json) → List (ProcessTracker Time Json)
  unfolding insert_by_schedule
  sort_by_schedule leb_time [] = []
  sort_by_schedule leb_time (p ∷ ps) = insert_by_schedule leb_time p (sort_by_schedule leb_time ps)

module _ {W Time Json : Type 0} where
  unfoldable pub insert_process :
      TaskTable W Time Json
      → ProcessTracker Time Json
      → Exec W DatabaseError (ProcessTracker Time Json)
  unfolding generic_insert
  insert_process table new = generic_insert table new

  unfoldable pub update :
      TaskTable W Time Json
      → Clock W Time
      → ProcessTracker Time Json
      → ProcessTrackerUpdate Time Json
      → Exec W DatabaseError (ProcessTracker Time Json)
  unfolding generic_update_by_id unless_no_fields from_update
  update table clock this process w =
      on_result (generic_update_by_id table this.id (from_update (clock.now w) process))
        (λ r. lift (unless_no_fields this r)) w

  unfoldable pub update_process_status_by_ids :
      TaskTable W Time Json
      → Clock W Time
      → List String
      → ProcessTrackerUpdate Time Json
      → Exec W DatabaseError ℕ
  unfolding generic_update from_update eq_any
  update_process_status_by_ids table clock task_ids task_update w =
      generic_update table (λ p. eq_any task_ids p.id) (from_update (clock.now w) task_update) w

  unfoldable pub find_process_by_id :
      TaskTable W Time Json → String → Exec W DatabaseError (Option (ProcessTracker Time Json))
  unfolding generic_find_by_id_optional
  find_process_by_id table id = generic_find_by_id_optional table id

  unfoldable pub find_processes_by_time_status :
      TaskTable W Time Json
      → Clock W Time
      → (time_lower_limit time_upper_limit : Time) → ProcessTrackerStatus
      → (limit : Option ℤ) → Exec W DatabaseError (List (ProcessTracker Time Json))
  unfolding generic_filter between status_eq
  find_processes_by_time_status table clock lower upper status limit =
      generic_filter table
        (λ p. between clock.leb_time lower upper p.schedule_time && status_eq p.status status) limit
        none

  unfoldable pub find_processes_to_clean :
      TaskTable W Time Json
      → Clock W Time
      → (time_lower_limit time_upper_limit : Time) → (runner : String) → (limit : ℕ)
      → Exec W DatabaseError (List (ProcessTracker Time Json))
  unfolding generic_filter between status_eq runner_is sort_by_schedule
  find_processes_to_clean table clock lower upper runner limit = do
    x ←
        generic_filter table
          (λ p.
            between clock.leb_time lower upper p.schedule_time
            && status_eq p.status process_started
            && runner_is runner p.runner)
          none none
    pure (take limit (sort_by_schedule clock.leb_time x))

  unfoldable pub reinitialize_limbo_processes :
      TaskTable W Time Json → List String → Time → Exec W DatabaseError ℕ
  unfolding generic_update status_eq eq_any
  reinitialize_limbo_processes table ids schedule_time =
      generic_update table (λ p. status_eq p.status process_started && eq_any ids p.id)
        (record {
          name = none;
          retry_count = none;
          schedule_time = some schedule_time;
          tracking_data = none;
          business_status = none;
          status = some processing;
          updated_at = none;
        })

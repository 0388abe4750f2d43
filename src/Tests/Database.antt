-- ===== src/Tests/Database.antt =====
-- A table of tasks in memory, which keeps the laws that the code relies on. Times are numbers of
-- milliseconds, and tracking data is text.
use mercado.Prelude.Int.{ℤ, pos, negsuc}
use mercado.Prelude.{
  Bool, List, Option, String, ℕ, ◌∷◌, All, [], leb, not, refl, some, str_eq, ◌++◌, ◌≡◌, length,
  true, Bool-cases, take, ◌+◌, inl, ◌*◌, inr, ◌-◌, suc, none, zero,
}
use mathlib.Core.Path.{subst}
use mercado.Prelude.Results.{ok-injective, Result, ok, err, written}
use mercado.Prelude.Exec.{pure}
use mercado.Db.Table.{DieselError}
use mercado.Scheduler.ProcessTracker.{ProcessTracker, process_started}
use mercado.Scheduler.ProcessTracker.Update.{ProcessTrackerUpdateInternal}
use mercado.Scheduler.Tasks.{TaskTable, Clock}
use mercado.Scheduler.Store.{Store}
use mercado.Scheduler.Store.Laws.{TableLaws, select_rows, update_rows}

abbrev pub Task : Type 0
Task = ProcessTracker ℕ String

abbrev pub Changes : Type 0
Changes = ProcessTrackerUpdateInternal ℕ String

pub record Memory : Type 0 where
  pub rows : List Task
  pub time : ℕ

abbrev pub first : List Task → Result DieselError Task
first [] = err DieselError.not_found
first (p ∷ ps) = ok p

abbrev pub by_id : String → Task → Bool
by_id id p = str_eq p.id id

abbrev pub not_by : (Task → Bool) → Task → Bool
not_by test p = not (test p)

abbrev pub truncated : Option ℤ → List Task → List Task
truncated (some (pos n)) ps = take n ps
truncated _ ps = ps

abbrev pub memory_table : TaskTable Memory ℕ String
memory_table = record {
  insert_into = λ p m. (ok p, record m { rows = m.rows ++ p ∷ [] });
  update_where = λ test c m.
      (ok (length (select_rows test m.rows)), record m { rows = update_rows test c m.rows });
  update_returning = λ test c m. (
    ok (select_rows test (update_rows test c m.rows)),
    record m { rows = update_rows test c m.rows },
  );
  update_by_id = λ id c m.
      let r : Result DieselError Task =
        first (select_rows (by_id id) (update_rows (by_id id) c m.rows)) in
      (r, record m { rows = written r (update_rows (by_id id) c m.rows) m.rows });
  delete_where = λ test m.
      (ok (length (select_rows test m.rows)), record m { rows = select_rows (not_by test) m.rows });
  delete_returning = λ test m.
      (ok (select_rows test m.rows), record m { rows = select_rows (not_by test) m.rows });
  find = λ id m. (first (select_rows (by_id id) m.rows), m);
  get_result = λ test m. (first (select_rows test m.rows), m);
  get_results = λ test limit offset m. (ok (truncated limit (select_rows test m.rows)), m);
}

abbrev pub memory_clock : Clock Memory ℕ
memory_clock = record {
  now = λ m. m.time;
  leb_time = leb;
  checked_add = λ t n. elim n [ pos k ↦ some (t + k * 1000) | negsuc k ↦ some (t - suc k * 1000) ];
  checked_sub = λ t n. elim n [ pos k ↦ some (t - k * 1000) | negsuc k ↦ some (t + suc k * 1000) ];
}

abbrev pub memory_store : Store Memory ℕ String
memory_store = record { table = memory_table; clock = memory_clock; master_pool_get = pure tt }

pub first-ne-query_builder_error :
    (ps : List Task) → first ps ≡ err DieselError.query_builder_error → ⊥
first-ne-query_builder_error [] h = cc
first-ne-query_builder_error (p ∷ ps) h = cc

pub All-select_rows :
    (test : Task → Bool) (ps : List Task) → All (λ p. test p ≡ true) (select_rows test ps)
All-select_rows test [] = tt
All-select_rows test (p ∷ ps) = elim (Bool-cases (test p)) [
  | inl e ↦ rw e (e, All-select_rows test ps)
  | inr e ↦ rw e (All-select_rows test ps)
]

All-take :
    (test : Task → Bool) (n : ℕ) (ps : List Task)
    → All (λ p. test p ≡ true) ps
    → All (λ p. test p ≡ true) (take n ps)
All-take test zero ps h = tt
All-take test (suc n) [] h = tt
All-take test (suc n) (p ∷ ps) h = (h.0, All-take test n ps h.1)

pub All-truncated :
    (test : Task → Bool) (limit : Option ℤ) (ps : List Task)
    → All (λ p. test p ≡ true) ps
    → All (λ p. test p ≡ true) (truncated limit ps)
All-truncated test none ps h = h
All-truncated test (some (pos n)) ps h = All-take test n ps h
All-truncated test (some (negsuc n)) ps h = h

unfoldable pub memory_laws : TableLaws memory_store
memory_laws = record {
  rows = λ m. m.rows;
  connect_keeps = λ m. refl;
  connect_now = λ m. refl;
  update_where_rows = λ test c m. refl;
  update_where_count = λ test c m h. cc;
  update_by_id_rows = λ id c m. refl;
  update_by_id_empty = λ id c m h. absurd (first-ne-query_builder_error _ h);
  get_results_pass = λ test limit offset m h.
      subst (All (λ p. test p ≡ true)) (ok-injective h)
        (All-truncated test limit (select_rows test m.rows) (All-select_rows test m.rows));
  get_results_keeps = λ test limit offset m. refl;
}

abbrev pub task : String → Task
task id = record {
  id = id;
  name = some "PAYMENTS_SYNC";
  tag = "SYNC" ∷ [];
  runner = some "PAYMENTS_SYNC_WORKFLOW";
  retry_count = pos 0;
  schedule_time = some 5000;
  rule = "";
  tracking_data = "";
  business_status = "Pending";
  status = process_started;
  event = [];
  created_at = 1000;
  updated_at = 1000;
}

abbrev pub two_tasks : Memory
two_tasks = record { rows = task "a" ∷ task "b" ∷ []; time = 6000 }

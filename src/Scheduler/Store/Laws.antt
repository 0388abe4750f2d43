-- ===== src/Scheduler/Store/Laws.antt =====
-- What the code relies on of the database: the documented effect of diesel's statements on the rows of
-- the table of tasks. `AsChangeset` skips the fields that are `None`.
use mercado.Prelude.Int.{ℤ}
use mercado.Prelude.Results.{ok, err, written}
use mercado.Prelude.{
  Bool, List, Option, some, ◌∷◌, ◌≡◌, if◌then◌else◌, none, ℕ, [], length, String, str_eq, All, true,
}
use mercado.Scheduler.ProcessTracker.{ProcessTracker}
use mercado.Scheduler.ProcessTracker.Update.{ProcessTrackerUpdateInternal}
use mercado.Scheduler.Store.{Store, List, Option, ℤ}
use mercado.Db.Table.{DieselError}

abbrev pub or_old : {A : Type 0} → Option A → A → A
or_old none old = old
or_old (some a) old = a

abbrev pub set_if : {A : Type 0} → Option A → Option A → Option A
set_if none old = old
set_if (some a) old = some a

module _ {Time Json : Type 0} where
  abbrev pub apply_changes :
      ProcessTrackerUpdateInternal Time Json → ProcessTracker Time Json → ProcessTracker Time Json
  apply_changes c p = record p {
    name = set_if c.name p.name;
    retry_count = or_old c.retry_count p.retry_count;
    schedule_time = set_if c.schedule_time p.schedule_time;
    tracking_data = or_old c.tracking_data p.tracking_data;
    business_status = or_old c.business_status p.business_status;
    status = or_old c.status p.status;
    updated_at = or_old c.updated_at p.updated_at;
  }

  abbrev pub update_rows :
      (ProcessTracker Time Json → Bool)
      → ProcessTrackerUpdateInternal Time Json
      → List (ProcessTracker Time Json)
      → List (ProcessTracker Time Json)
  update_rows test c [] = []
  update_rows test c (p ∷ ps) = (if test p then apply_changes c p else p) ∷ update_rows test c ps

  abbrev pub select_rows :
      (ProcessTracker Time Json → Bool)
      → List (ProcessTracker Time Json)
      → List (ProcessTracker Time Json)
  select_rows test [] = []
  select_rows test (p ∷ ps) = let rest = select_rows test ps in if test p then p ∷ rest else rest

-- `rows w` is the table in the world `w`. A statement that ends in an error has changed no row.
pub record TableLaws {W Time Json : Type 0} (store : Store W Time Json) : Type 0 where
  pub rows : W → List (ProcessTracker Time Json)
  pub connect_keeps : (w : W) → rows (store.master_pool_get w).1 ≡ rows w
  pub connect_now : (w : W) → store.clock.now (store.master_pool_get w).1 ≡ store.clock.now w
  pub update_where_rows :
      (test : ProcessTracker Time Json → Bool) (c : ProcessTrackerUpdateInternal Time Json) (w : W)
      → let (r, w') = store.table.update_where test c w in
        rows w' ≡ written r (update_rows test c (rows w)) (rows w)
  pub update_where_count :
      (test : ProcessTracker Time Json → Bool) (c : ProcessTrackerUpdateInternal Time Json) (w : W)
      {n : ℕ}
      → (store.table.update_where test c w).0 ≡ ok n
      → n ≡ length (select_rows test (rows w))
  pub update_by_id_rows :
      (id : String) (c : ProcessTrackerUpdateInternal Time Json) (w : W)
      → let (r, w') = store.table.update_by_id id c w in
        rows w' ≡ written r (update_rows (λ p. str_eq p.id id) c (rows w)) (rows w)
  -- Only a changeset with no column ends in `QueryBuilderError`.
  pub update_by_id_empty :
      (id : String) (c : ProcessTrackerUpdateInternal Time Json) (w : W)
      → (store.table.update_by_id id c w).0 ≡ err DieselError.query_builder_error
      → c.status ≡ none
  -- A SELECT returns rows that pass its test, and changes nothing.
  pub get_results_pass :
      (test : ProcessTracker Time Json → Bool) (limit offset : Option ℤ) (w : W)
      {ps : List (ProcessTracker Time Json)}
      → (store.table.get_results test limit offset w).0 ≡ ok ps
      → All (λ p. test p ≡ true) ps
  pub get_results_keeps :
      (test : ProcessTracker Time Json → Bool) (limit offset : Option ℤ) (w : W)
      → rows (store.table.get_results test limit offset w).1 ≡ rows w

-- ===== src/Tests/Statements.antt =====
-- The generic statements on the table in memory.
use mercado.Db.Generics.Laws.{unique_update-outcome}
use mercado.Errors.{DatabaseError}
use mercado.Scheduler.ProcessTracker.{finish}
use mercado.Scheduler.ProcessTracker.Update.{from_update, status_update}
use mercado.Prelude.Results.{ok, err}
use mercado.Prelude.{◌≡◌, ◌↔◌, ◌∷◌, [], List, some}
use mercado.Scheduler.ProcessTracker.Update.{from_update, status_update}
use mercado.Tests.Database.{Changes, memory_table, by_id, two_tasks, Task}
use mercado.Db.Generics.{generic_update_with_unique_predicate_get_result}

abbrev finished : Changes
finished = from_update 7000 (status_update finish (some "COMPLETED"))

unique_update-outcome_example :
    let (r, w') =
      generic_update_with_unique_predicate_get_result memory_table (by_id "b") finished two_tasks in
    let (updated, w1) = memory_table.update_returning (by_id "b") finished two_tasks in
    ((row : Task) → (r ≡ ok row) ↔ (updated ≡ ok (row ∷ [])))
    × ((a b : Task) (rest : List Task) → updated ≡ ok (a ∷ b ∷ rest) → r ≡ err DatabaseError.others)
    × (w' ≡ w1)
unique_update-outcome_example = unique_update-outcome memory_table (by_id "b") finished two_tasks

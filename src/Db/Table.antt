-- ===== src/Db/Table.antt =====
-- The statements that diesel runs on one table, as the code of crates/diesel_models uses them. The
-- connection and the SQL server are not code of the repository: a value of `Table` stands for them.
-- `Row` is a row of the table, `Insert` what an INSERT takes, `Changes` a changeset, and a predicate
-- is the WHERE clause as a test of a row.
use mercado.Prelude.{String, Option, ℕ, List, Bool}
use mercado.Prelude.Int.{ℤ}
use mercado.Prelude.Exec.{Exec}

-- `diesel::result::Error`, as far as the code tells its variants apart.
pub data DieselError : Type 0 where
  unique_violation not_found query_builder_error other : DieselError

pub record Table (W Row Insert Changes : Type 0) : Type 0 where
  -- INSERT … RETURNING
  pub insert_into : Insert → Exec W DieselError Row
  -- UPDATE … WHERE, the number of rows
  pub update_where : (Row → Bool) → Changes → Exec W DieselError ℕ
  -- UPDATE … WHERE … RETURNING
  pub update_returning : (Row → Bool) → Changes → Exec W DieselError (List Row)
  -- UPDATE … WHERE the primary key … RETURNING, one row
  pub update_by_id : String → Changes → Exec W DieselError Row
  -- DELETE … WHERE, the number of rows
  pub delete_where : (Row → Bool) → Exec W DieselError ℕ
  -- DELETE … WHERE … RETURNING
  pub delete_returning : (Row → Bool) → Exec W DieselError (List Row)
  -- SELECT … WHERE the primary key LIMIT 1
  pub find : String → Exec W DieselError Row
  -- SELECT … WHERE, one row
  pub get_result : (Row → Bool) → Exec W DieselError Row
  -- SELECT … WHERE … LIMIT … OFFSET …
  pub get_results : (Row → Bool) → Option ℤ → Option ℤ → Exec W DieselError (List Row)

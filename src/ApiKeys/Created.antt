-- ===== src/ApiKeys/Created.antt =====
-- `create_api_key` over the table api_key of the migrations, whose id has no default.

use mercado.ApiKeys.Service.{KeyTable}
use mercado.Db.Table.{DieselError}
use mercado.ApiKeys.Rows.{ApiKeyNew, ApiKey}
use mercado.Prelude.Results.{err, Result}
use mercado.Prelude.{List, ◌≡◌}

-- A call that ended in an error and left the rows as they were.
abbrev IsRefused : {E A R : Type 0} → (before after : List R) → Result E A → Type 0
IsRefused {E} before after r = ((e : E) × (r ≡ err e)) × (after ≡ before)

module _ {W Time : Type 0} (table : KeyTable W Time) (rows : W → List (ApiKey Time)) where
  -- PostgreSQL, where a column that is NOT NULL and has no default is not among the values of an
  -- INSERT: an error that diesel does not tell apart, and no change.
  abbrev pub IsRefusing : Type 0
  IsRefusing =
      (values : ApiKeyNew Time) (w : W)
      → let (r, w') = table.insert_into values w in (r ≡ err DieselError.other) × (rows w' ≡ rows w)

-- ===== src/Db/Contents.antt =====
-- What the code relies on of the database for a table with a text as its primary key: the documented
-- effect of diesel's statements on the rows. After an error no row has changed.
use mathlib.Core.List.{Mem}
use mercado.Prelude.Results.{Result, ok, err}
use mercado.Db.Table.{Table, DieselError}
use mercado.Prelude.{
  Bool, String, List, ◌≡◌, Option, ◌∷◌, arith, if◌then◌else◌, none, [], str_eq, refl, some, true,
  ◌++◌, All, false,
}

module _ {Row : Type 0} (id_of : Row → String) where
  -- The row that SELECT … WHERE the primary key answers.
  abbrev pub row_with : String → List Row → Option Row
  row_with id [] = none
  row_with id (r ∷ rs) = let rest = row_with id rs in if str_eq (id_of r) id then some r else rest

  abbrev pub change_rows : String → (Row → Row) → List Row → List Row
  change_rows id f [] = []
  change_rows id f (r ∷ rs) =
      let rest = change_rows id f rs in (if str_eq (id_of r) id then f r else r) ∷ rest

  pub change_rows-same :
      (id : String) (f : Row → Row)
      → ((r : Row) → f r ≡ r)
      → (rows : List Row) → change_rows id f rows ≡ rows
  change_rows-same id f same [] = refl
  change_rows-same id f same (r ∷ rs) = ground (arith, same r, change_rows-same id f same rs)

  -- UPDATE … WHERE the primary key … RETURNING. Only a changeset with no column, which changes no row,
  -- ends in `QueryBuilderError`.
  abbrev pub IsUpdatedById :
      String → (Row → Row) → (before after : List Row) → Result DieselError Row → Type 0
  IsUpdatedById id f before after (ok r) =
      ((old : Row) × (row_with id before ≡ some old) × (r ≡ f old))
      × (after ≡ change_rows id f before)
  IsUpdatedById id f before after (err DieselError.not_found) =
      (row_with id before ≡ none) × (after ≡ before)
  IsUpdatedById id f before after (err DieselError.query_builder_error) =
      ((r : Row) → f r ≡ r) × (after ≡ before)
  IsUpdatedById id f before after (err e) = after ≡ before

  -- SELECT … WHERE the primary key.
  abbrev pub IsFound : String → (before after : List Row) → Result DieselError Row → Type 0
  IsFound id before after (ok r) = (row_with id before ≡ some r) × (after ≡ before)
  IsFound id before after (err DieselError.not_found) =
      (row_with id before ≡ none) × (after ≡ before)
  IsFound id before after (err e) = after ≡ before

  -- INSERT … RETURNING, of a row that is made of the values.
  abbrev pub IsInserted :
      (Row → Type 0) → (before after : List Row) → Result DieselError Row → Type 0
  IsInserted made before after (ok r) = made r × (after ≡ before ++ r ∷ [])
  IsInserted made before after (err e) = after ≡ before

-- SELECT … WHERE a test.
abbrev pub IsSelected :
    {Row : Type 0} → (Row → Bool) → (before after : List Row) → Result DieselError Row → Type 0
IsSelected test before after (ok r) = (test r ≡ true) × Mem r before × (after ≡ before)
IsSelected test before after (err DieselError.not_found) =
    All (λ r. test r ≡ false) before × (after ≡ before)
IsSelected test before after (err e) = after ≡ before

pub record Contents {W Row Insert Changes : Type 0} (table : Table W Row Insert Changes)
    : Type 0 where
  pub id_of : Row → String
  pub rows : W → List Row
  -- The row with the fields of a changeset that are not `None`.
  pub apply : Changes → Row → Row
  -- The row that an INSERT makes of the values where it succeeds. The id is not among the values: a
  -- database with no default for it, as the migrations have for api_key, refuses every INSERT, and
  -- then only the error of `insert_lem` occurs.
  pub new_row : String → Insert → Row
  pub update_by_id_lem :
      (id : String) (c : Changes) (w : W)
      → let (r, w') = table.update_by_id id c w in
        IsUpdatedById id_of id (apply c) (rows w) (rows w') r
  pub find_lem :
      (id : String) (w : W) → let (r, w') = table.find id w in IsFound id_of id (rows w) (rows w') r
  pub insert_lem :
      (values : Insert) (w : W)
      → let (r, w') = table.insert_into values w in
        IsInserted id_of (λ row. row ≡ new_row (id_of row) values) (rows w) (rows w') r
  pub get_result_lem :
      (test : Row → Bool) (w : W)
      → let (r, w') = table.get_result test w in IsSelected test (rows w) (rows w') r

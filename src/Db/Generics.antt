-- ===== src/Db/Generics.antt =====
-- crates/diesel_models/src/generics.rs: one function for each kind of statement, and the errors that
-- each makes of what diesel answers. Metrics and logs are left out; `order` is never given where the
-- functions are used below and is left out too.
pub mod Laws
use mercado.Prelude.Int.{ℤ}
use mercado.Prelude.{Bool, List, Option, String, ℕ, some, ◌∷◌, none, true, zero, []}
use Prim.Native.Nat.{ℕ, suc}
use Prim.Native.String.{String, ◌∷◌}
use mercado.Prelude.Exec.{Exec, map_error, on_result, pure, raise, lift, ◌>>=◌}
use mercado.Prelude.Results.{Result, ok, err}
use mercado.Errors.{DatabaseError}
use mercado.Db.Table.{Table, DieselError}

-- The `match err.current_context()` of each function.
unfoldable pub insert_error : DieselError → DatabaseError
insert_error DieselError.unique_violation = DatabaseError.unique_violation
insert_error _ = DatabaseError.others

unfoldable pub update_error : DieselError → DatabaseError
update_error DieselError.query_builder_error = DatabaseError.no_fields_to_update
update_error DieselError.not_found = DatabaseError.not_found
update_error _ = DatabaseError.others

unfoldable pub find_error : DieselError → DatabaseError
find_error DieselError.not_found = DatabaseError.not_found
find_error _ = DatabaseError.others

module _ {W Row Insert Changes : Type 0} (table : Table W Row Insert Changes) where
  unfoldable pub generic_insert : Insert → Exec W DatabaseError Row
  unfolding insert_error
  generic_insert values = map_error insert_error (table.insert_into values)

  unfoldable pub generic_update : (Row → Bool) → Changes → Exec W DatabaseError ℕ
  generic_update predicate values =
      map_error (λ _. DatabaseError.others) (table.update_where predicate values)

  unfoldable pub generic_update_with_results :
      (Row → Bool) → Changes → Exec W DatabaseError (List Row)
  unfolding update_error
  generic_update_with_results predicate values =
      map_error update_error (table.update_returning predicate values)

  unfoldable pub generic_update_by_id : String → Changes → Exec W DatabaseError Row
  unfolding update_error
  generic_update_by_id id values = map_error update_error (table.update_by_id id values)

  -- The closure over the number of deleted rows.
  deleted_some : ℕ → Result DatabaseError Bool
  deleted_some zero = err DatabaseError.not_found
  deleted_some (suc n) = ok true

  unfoldable pub generic_delete : (Row → Bool) → Exec W DatabaseError Bool
  unfolding deleted_some
  generic_delete predicate = do
    result ← map_error (λ _. DatabaseError.others) (table.delete_where predicate)
    lift (deleted_some result)

  -- `result.first().cloned().ok_or_else(…)`
  first_row : List Row → Result DatabaseError Row
  first_row [] = err DatabaseError.not_found
  first_row (r ∷ rs) = ok r

  unfoldable pub generic_delete_one_with_result : (Row → Bool) → Exec W DatabaseError Row
  unfolding first_row
  generic_delete_one_with_result predicate = do
    result ← map_error (λ _. DatabaseError.others) (table.delete_returning predicate)
    lift (first_row result)

  -- The closure over the updated rows: none, one, or more.
  only_row : List Row → Result DatabaseError Row
  only_row [] = err DatabaseError.not_found
  only_row (r ∷ []) = ok r
  only_row (r ∷ s ∷ rs) = err DatabaseError.others

  unfoldable pub generic_update_with_unique_predicate_get_result :
      (Row → Bool) → Changes → Exec W DatabaseError Row
  unfolding only_row generic_update_with_results
  generic_update_with_unique_predicate_get_result predicate values = do
    vec_r ← generic_update_with_results predicate values
    lift (only_row vec_r)

  unfoldable pub generic_find_by_id : String → Exec W DatabaseError Row
  unfolding find_error
  generic_find_by_id id = map_error find_error (table.find id)

  unfoldable pub generic_find_one : (Row → Bool) → Exec W DatabaseError Row
  unfolding find_error
  generic_find_one predicate = map_error find_error (table.get_result predicate)

  unfoldable pub generic_filter :
      (Row → Bool) → (limit offset : Option ℤ) → Exec W DatabaseError (List Row)
  generic_filter predicate limit offset =
      map_error (λ _. DatabaseError.not_found) (table.get_results predicate limit offset)

  unfoldable pub to_optional : Result DatabaseError Row → Result DatabaseError (Option Row)
  to_optional (ok value) = ok (some value)
  to_optional (err DatabaseError.not_found) = ok none
  to_optional (err e) = err e

  unfoldable pub generic_find_by_id_optional : String → Exec W DatabaseError (Option Row)
  unfolding to_optional generic_find_by_id
  generic_find_by_id_optional id = on_result (generic_find_by_id id) (λ r. lift (to_optional r))

  unfoldable pub generic_find_one_optional : (Row → Bool) → Exec W DatabaseError (Option Row)
  unfolding to_optional generic_find_one
  generic_find_one_optional predicate =
      on_result (generic_find_one predicate) (λ r. lift (to_optional r))

-- ===== src/Db/Generics/Laws.antt =====
-- What the callers of the generic statements can tell from their results.
use mercado.Errors.{DatabaseError}
use mercado.Prelude.Results.{ok, err}
use mercado.Prelude.{Bool, ◌≡◌, ◌≢◌, false, none, ◌↔◌, ◌∷◌, [], List, some, true, ℕ, suc, arith}
use mercado.Db.Table.{Table, DieselError}
use mercado.Db.Generics.{
  generic_delete, generic_update_with_unique_predicate_get_result, generic_find_one_optional, Table,
  Bool, ok, none, err, DatabaseError, DieselError, [], List, some, true, ℕ, suc,
}

module _ {W Row Insert Changes : Type 0} (table : Table W Row Insert Changes) where
  -- A delete never answers `false`: it answers `true` exactly when the statement deleted a row, and
  -- `NotFound` exactly when the statement deleted none.
  pub generic_delete-outcome :
      (predicate : Row → Bool) (w : W)
      → let r = (generic_delete table predicate w).0 in
        let deleted = (table.delete_where predicate w).0 in
        (r ≢ ok false)
        × ((r ≡ err DatabaseError.not_found) ↔ (deleted ≡ ok 0))
        × ((r ≡ ok true) ↔ ((n : ℕ) × (deleted ≡ ok (suc n))))
  unfolding generic_delete
  generic_delete-outcome predicate w = ground arith

  -- An update with a unique predicate answers a row exactly when the statement has updated that one
  -- row. When it has updated more, the answer is an error, and what the statement wrote stays: the
  -- world after the call is the world after the statement, whatever the answer is.
  pub unique_update-outcome :
      (predicate : Row → Bool) (values : Changes) (w : W)
      → let (r, w') = generic_update_with_unique_predicate_get_result table predicate values w in
        let (updated, w1) = table.update_returning predicate values w in
        ((row : Row) → (r ≡ ok row) ↔ (updated ≡ ok (row ∷ [])))
        × ((a b : Row) (rest : List Row)
            → updated ≡ ok (a ∷ b ∷ rest)
            → r ≡ err DatabaseError.others)
        × (w' ≡ w1)
  unfolding generic_update_with_unique_predicate_get_result
  unique_update-outcome predicate values w = ground arith

  -- The optional finders turn a missing row, and no other error, into `None`.
  pub find_one_optional-outcome :
      (predicate : Row → Bool) (w : W)
      → let r = (generic_find_one_optional table predicate w).0 in
        let found = (table.get_result predicate w).0 in
        ((r ≡ ok none) ↔ (found ≡ err DieselError.not_found))
        × ((row : Row) → (r ≡ ok (some row)) ↔ (found ≡ ok row))
  unfolding generic_find_one_optional
  find_one_optional-outcome predicate w = ground arith

-- ===== src/Db/ById.antt =====
-- `update_by_id` of the tables with a text as their primary key: crates/diesel_models, in
-- src/api_key/repository.rs and src/user/repository.rs.
use mercado.Db.Generics.{generic_find_by_id, generic_update_by_id}
use mercado.Errors.{DatabaseError}
use mercado.Prelude.Exec.{Exec, on_result, lift}
use mercado.Prelude.Results.{Result, err}
use mercado.Prelude.{String}
use mercado.Db.Table.{Table}

module _ {W Row Insert Changes : Type 0} (table : Table W Row Insert Changes) where
  -- The match on the result of the update: a changeset with no field is a lookup.
  unfoldable pub or_find : String → Result DatabaseError Row → Exec W DatabaseError Row
  or_find id (err DatabaseError.no_fields_to_update) = generic_find_by_id table id
  or_find id result = lift result

  unfoldable pub update_or_find : String → Changes → Exec W DatabaseError Row
  unfolding or_find
  update_or_find id values = on_result (generic_update_by_id table id values) (or_find id)

-- ===== src/ApiKeys/Upsert.antt =====
-- What an upsert of an API key does to the keys that are stored.
use mercado.ApiKeys.Insert.{IsAdded, insert_api_key-IsAdded}
use mercado.Db.Connections.{with_connection}
use mathlib.Core.Path.{subst}
use mercado.Errors.{DatabaseError}
use mercado.Db.ById.{or_find, update_or_find}
use mercado.Db.Table.{DieselError}
use mercado.Db.Generics.{generic_find_by_id, find_error, update_error, generic_update_by_id}
use mercado.Errors.{StorageError}
use mercado.Prelude.Results.{Result, ok, err, Result-cases}
use mercado.Prelude.Exec.{map_error, on_result}
use mercado.ApiKeys.Rows.{
  ApiKeyUpdate, ApiKey, internal_from, ApiKeyNew, try_from, ApiKeyUpdateInternal,
}
use mercado.Prelude.{
  String, List, ◌≡◌, some, ◌⊎◌, none, ◌++◌, ◌∷◌, [], sym, ◌∙◌, inr, inl, ap, refl,
}
use mercado.Db.Contents.{Contents, row_with, change_rows, IsFound, IsUpdatedById, change_rows-same}
use mercado.ApiKeys.Service.{
  KeyTable, KeyStore, update_api_key, pg_connection_write, update_by_id, insert_api_key, insert_new,
  or_insert, upsert_api_key,
}

-- What a store of keys promises of an upsert: a key that is there is changed, and else the values that
-- the update gives in full are added as a new key.
abbrev pub IsUpserted :
    {W Time : Type 0} {table : KeyTable W Time} (contents : Contents table)
    → String
    → ApiKeyUpdate Time
    → (before after : List (ApiKey Time)) → Result StorageError (ApiKey Time)
    → Type 0
IsUpserted contents id api_key before after (ok key) =
    (((old : ApiKey _) × (row_with contents.id_of id before ≡ some old)
        × (key ≡ contents.apply (internal_from api_key) old))
      × (after ≡ change_rows contents.id_of id (contents.apply (internal_from api_key)) before))
    ⊎ ((row_with contents.id_of id before ≡ none)
        × ((values : ApiKeyNew _) × (try_from (internal_from api_key) ≡ ok values)
            × (key ≡ contents.new_row (contents.id_of key) values))
        × (after ≡ before ++ key ∷ []))
IsUpserted contents id api_key before after (err e) = after ≡ before

-- What an update promises: a key that is there is changed.
abbrev IsUpdated :
    {W Time : Type 0} {table : KeyTable W Time} (contents : Contents table)
    → String
    → ApiKeyUpdateInternal Time
    → (before after : List (ApiKey Time)) → Result StorageError (ApiKey Time)
    → Type 0
IsUpdated contents id c before after (ok key) =
    ((old : ApiKey _) × (row_with contents.id_of id before ≡ some old)
      × (key ≡ contents.apply c old))
    × (after ≡ change_rows contents.id_of id (contents.apply c) before)
IsUpdated contents id c before after (err (StorageError.database_error DatabaseError.not_found)) =
    (row_with contents.id_of id before ≡ none) × (after ≡ before)
IsUpdated contents id c before after (err e) = after ≡ before

module _ {W Time : Type 0} {table : KeyTable W Time} (contents : Contents table) (id : String)
    (c : ApiKeyUpdateInternal Time) (before : List (ApiKey Time)) where
  -- A lookup in the place of an update that has no field.
  generic_find_by_id-IsUpdated :
      ((r : ApiKey Time) → contents.apply c r ≡ r)
      → (p : Result DieselError (ApiKey Time) × W)
      → IsFound contents.id_of id before (contents.rows p.1) p.0
      → let (r, w) = map_error StorageError.database_error (map_error find_error (λ _. p)) p.1 in
        IsUpdated contents id c before (contents.rows w) r
  unfolding find_error
  generic_find_by_id-IsUpdated same (ok r, w) (is_there, kept) = (
    (r, is_there, sym (same r)),
    kept ∙ sym (change_rows-same contents.id_of id (contents.apply c) same before),
  )
  generic_find_by_id-IsUpdated same (err DieselError.not_found, w) h = h
  generic_find_by_id-IsUpdated same (err DieselError.unique_violation, w) h = h
  generic_find_by_id-IsUpdated same (err DieselError.query_builder_error, w) h = h
  generic_find_by_id-IsUpdated same (err DieselError.other, w) h = h

  update_or_find-IsUpdated :
      (p : Result DieselError (ApiKey Time) × W)
      → IsUpdatedById contents.id_of id (contents.apply c) before (contents.rows p.1) p.0
      → let (r, w) =
          map_error StorageError.database_error
            (on_result (map_error update_error (λ _. p)) (or_find table id))
            p.1 in
        IsUpdated contents id c before (contents.rows w) r
  unfolding update_error or_find generic_find_by_id
  update_or_find-IsUpdated (ok r, w) h = h
  update_or_find-IsUpdated (err DieselError.not_found, w) h = h
  update_or_find-IsUpdated (err DieselError.unique_violation, w) h = h
  update_or_find-IsUpdated (err DieselError.query_builder_error, w) (same, kept) =
      generic_find_by_id-IsUpdated same (table.find id w) (
        subst
          (λ rows.
            IsFound contents.id_of id rows (contents.rows (table.find id w).1) (table.find id w).0)
          kept (contents.find_lem id w))
  update_or_find-IsUpdated (err DieselError.other, w) h = h

module _ {W Time : Type 0} (store : KeyStore W Time) (contents : Contents store.table)
    (connect_keeps : (w : W) → contents.rows (store.master_pool_get w).1 ≡ contents.rows w) where
  update_api_key-IsUpdated :
      (id : String) (api_key : ApiKeyUpdate Time) (w : W)
      → let (r, w') = update_api_key store id api_key w in
        IsUpdated contents id (internal_from api_key) (contents.rows w) (contents.rows w') r
  unfolding update_api_key pg_connection_write update_by_id update_or_find generic_update_by_id
  update_api_key-IsUpdated id api_key w =
      let c = internal_from api_key in
      let w1 = (store.master_pool_get w).1 in
      with_connection (λ p. IsUpdated contents id c (contents.rows w) (contents.rows p.1) p.0)
        store.master_pool_get
        (map_error StorageError.database_error (update_by_id store.table id api_key)) w
        (connect_keeps w)
        (update_or_find-IsUpdated contents id c (contents.rows w) (store.table.update_by_id id c w1)
          (subst
            (λ before.
              IsUpdatedById contents.id_of id (contents.apply c) before
                (contents.rows (store.table.update_by_id id c w1).1)
                (store.table.update_by_id id c w1).0)
            (connect_keeps w) (contents.update_by_id_lem id c w1)))

  complete-IsUpserted :
      (id : String) (api_key : ApiKeyUpdate Time) (values : ApiKeyNew Time)
      (before : List (ApiKey Time)) (p : Result StorageError (ApiKey Time) × W)
      → row_with contents.id_of id before ≡ none
      → try_from (internal_from api_key) ≡ ok values
      → IsAdded store contents connect_keeps values before (contents.rows p.1) p.0
      → IsUpserted contents id api_key before (contents.rows p.1) p.0
  complete-IsUpserted id api_key values before (ok key, w) missing complete (made, added) =
      inr (missing, (values, complete, made), added)
  complete-IsUpserted id api_key values before (err e, w) missing complete h = h

  insert_new-IsUpserted :
      (id : String) (api_key : ApiKeyUpdate Time) (w : W)
      → row_with contents.id_of id (contents.rows w) ≡ none
      → let (r, w') = insert_new store (try_from (internal_from api_key)) w in
        IsUpserted contents id api_key (contents.rows w) (contents.rows w') r
  unfolding insert_new
  insert_new-IsUpserted id api_key w missing =
      elim (Result-cases (try_from (internal_from api_key))) [
        | inr (message, incomplete) ↦ rw incomplete refl
        | inl (values, complete) ↦ rw complete (
            complete-IsUpserted id api_key values (contents.rows w) (insert_api_key store values w)
              missing complete (insert_api_key-IsAdded store contents connect_keeps values w))
      ]

  or_insert-IsUpserted :
      (id : String) (api_key : ApiKeyUpdate Time) (before : List (ApiKey Time))
      (p : Result StorageError (ApiKey Time) × W)
      → IsUpdated contents id (internal_from api_key) before (contents.rows p.1) p.0
      → let (r, w) = or_insert store api_key p.0 p.1 in
        IsUpserted contents id api_key before (contents.rows w) r
  unfolding or_insert
  or_insert-IsUpserted id api_key before (ok key, w) h = inl h
  or_insert-IsUpserted id api_key before
        (err (StorageError.database_error DatabaseError.not_found), w) (missing, kept) =
      let q = insert_new store (try_from (internal_from api_key)) w in
      subst (λ rows. IsUpserted contents id api_key rows (contents.rows q.1) q.0) kept
        (insert_new-IsUpserted id api_key w (ap (row_with contents.id_of id) kept ∙ missing))
  or_insert-IsUpserted id api_key before (err _, w) h = h

  -- If taking a connection keeps the rows and the statements have their documented effect: upsert_api_key that succeeds has changed the key with the given id by the update, and answers it; or there was none, the update gives every value of a new key, and the key of these values was added and is answered. After an error no row has changed.
  pub upsert_api_key-IsUpserted :
      (id : String) (api_key : ApiKeyUpdate Time) (w : W)
      → let (r, w') = upsert_api_key store id api_key w in
        IsUpserted contents id api_key (contents.rows w) (contents.rows w') r
  unfolding upsert_api_key
  upsert_api_key-IsUpserted id api_key w =
      or_insert-IsUpserted id api_key (contents.rows w) (update_api_key store id api_key w)
        (update_api_key-IsUpdated id api_key w)

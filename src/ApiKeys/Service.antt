-- ===== src/ApiKeys/Service.antt =====
-- `impl ApiKeyInterface for Store`: crates/modules/src/service/api_key.rs, over
-- crates/diesel_models/src/api_key/repository.rs and the connections of crates/router/src/connection.rs.
-- With the crate's features reads go to the master pool too; taking a connection is the bb8 crate's.
use mercado.Db.Generics.{
  generic_find_one_optional, generic_delete, generic_find_by_id, generic_insert,
}
use mercado.Db.ById.{update_or_find}
use mercado.Errors.{DatabaseError, StorageError}
use mercado.Prelude.Results.{Result, err, ok, map_err}
use mercado.Prelude.Exec.{Exec, map_error, on_result, ◌>>=◌, ◌>>◌, raise, lift}
use mercado.ApiKeys.Rows.{
  ApiKeyNew, ApiKeyUpdate, HashedApiKey, ApiKey, ApiKeyUpdateInternal, hashed_from, internal_from,
  try_from,
}
use mercado.Db.Table.{Table}
use mercado.Prelude.{Option, String, Bool, some, none, str_eq}

abbrev pub KeyTable : Type 0 → Type 0 → Type 0
KeyTable W Time = Table W (ApiKey Time) (ApiKeyNew Time) (ApiKeyUpdateInternal Time)

module _ {W Time : Type 0} (table : KeyTable W Time) where
  -- The repository.
  unfoldable pub update_by_id : String → ApiKeyUpdate Time → Exec W DatabaseError (ApiKey Time)
  update_by_id id values = update_or_find table id (internal_from values)

  unfoldable pub has_token : HashedApiKey → ApiKey Time → Bool
  has_token hashed key = str_eq key.token.into_inner hashed.into_inner

  unfoldable pub find_optional_by_hashed_api_key :
      HashedApiKey → Exec W DatabaseError (Option (ApiKey Time))
  unfolding has_token
  find_optional_by_hashed_api_key hashed = generic_find_one_optional table (has_token hashed)

  unfoldable pub delete_by_id : String → Exec W DatabaseError Bool
  delete_by_id id = generic_delete table (λ key. str_eq key.id id)

-- The match on the key that was found.
unfoldable pub or_not_found :
    {Time : Type 0} → Option (ApiKey Time) → Result DatabaseError (ApiKey Time)
or_not_found (some api_key) = ok api_key
or_not_found none = err DatabaseError.not_found

pub record KeyStore (W Time : Type 0) : Type 0 where
  pub table : KeyTable W Time
  -- `pool.get()` of the master pool
  pub master_pool_get : Exec W (Unit {0}) (Unit {0})

module _ {W Time : Type 0} (store : KeyStore W Time) where
  unfoldable pub pg_connection_write : Exec W StorageError (Unit {0})
  pg_connection_write =
      map_error (λ _. StorageError.database_connection_error) store.master_pool_get

  unfoldable pub retrieve_api_key : String → Exec W StorageError (ApiKey Time)
  retrieve_api_key key_id = do
    pg_connection_write
    map_error StorageError.database_error (generic_find_by_id store.table key_id)

  unfoldable pub insert_api_key : ApiKeyNew Time → Exec W StorageError (ApiKey Time)
  insert_api_key api_key = do
    pg_connection_write
    map_error StorageError.database_error (generic_insert store.table api_key)

  unfoldable pub update_api_key : String → ApiKeyUpdate Time → Exec W StorageError (ApiKey Time)
  update_api_key key_id api_key = do
    pg_connection_write
    map_error StorageError.database_error (update_by_id store.table key_id api_key)

  unfoldable pub delete_api_key : String → Exec W StorageError Bool
  delete_api_key key_id = do
    pg_connection_write
    map_error StorageError.database_error (delete_by_id store.table key_id)

  -- The closure `insert_call` of upsert_api_key.
  unfoldable pub insert_new : Result String (ApiKeyNew Time) → Exec W StorageError (ApiKey Time)
  insert_new (ok new_api_key) = insert_api_key new_api_key
  insert_new (err message) = raise (StorageError.value_not_found message)

  -- The match on the result of the update.
  unfoldable pub or_insert :
      ApiKeyUpdate Time → Result StorageError (ApiKey Time) → Exec W StorageError (ApiKey Time)
  unfolding insert_new
  or_insert api_key (err (StorageError.database_error DatabaseError.not_found)) =
      insert_new (try_from (internal_from api_key))
  or_insert api_key result = lift result

  unfoldable pub upsert_api_key : String → ApiKeyUpdate Time → Exec W StorageError (ApiKey Time)
  unfolding or_insert
  upsert_api_key key_id api_key = on_result (update_api_key key_id api_key) (or_insert api_key)

  unfoldable pub authenticate_api_key : String → Exec W StorageError (ApiKey Time)
  unfolding or_not_found
  authenticate_api_key token = do
    pg_connection_write
    found ←
        map_error StorageError.database_error
          (find_optional_by_hashed_api_key store.table (hashed_from token))
    lift (map_err StorageError.database_error (or_not_found found))

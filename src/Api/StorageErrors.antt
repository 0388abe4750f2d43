-- ===== src/Api/StorageErrors.antt =====
-- `StorageErrorExt` for `ApiErrorResponse` and `RedisErrorExt`, crates/data_models/src/errors/utils.rs.
-- `to_not_found_response` and the others are here what they do with the error.
use mercado.Prelude.{String, concat_texts, none, ◌∷◌, [], some}
use mercado.Errors.{DatabaseError, RedisError, StorageError}
use mercado.Api.Errors.{ApiErrorResponse}

unfoldable pub api_not_found :
    {Json : Type 0} → ApiErrorResponse Json → StorageError → ApiErrorResponse Json
api_not_found not_found_response (StorageError.value_not_found _) = not_found_response
api_not_found not_found_response StorageError.customer_redacted = ApiErrorResponse.customer_redacted
api_not_found not_found_response _ = ApiErrorResponse.internal_server_error

unfoldable pub api_duplicate :
    {Json : Type 0} → ApiErrorResponse Json → StorageError → ApiErrorResponse Json
api_duplicate duplicate_response (StorageError.duplicate_value _ _) = duplicate_response
api_duplicate duplicate_response _ = ApiErrorResponse.internal_server_error

unfoldable pub to_redis_failed_response : RedisError → String → StorageError
to_redis_failed_response RedisError.not_found key =
    StorageError.value_not_found (concat_texts ("Data does not exist for key " ∷ key ∷ []))
to_redis_failed_response RedisError.set_nx_failed key =
    StorageError.duplicate_value "redis" (some key)
to_redis_failed_response _ key = StorageError.kv_error

-- `diesel_error_to_data_error` of crates/storage_impl/src/lib.rs.
unfoldable pub diesel_error_to_data_error : DatabaseError → StorageError
diesel_error_to_data_error DatabaseError.database_connection_error =
    StorageError.database_connection_error
diesel_error_to_data_error DatabaseError.not_found = StorageError.value_not_found "Value not found"
diesel_error_to_data_error DatabaseError.unique_violation =
    StorageError.duplicate_value "entity " none
diesel_error_to_data_error e = StorageError.database_error e

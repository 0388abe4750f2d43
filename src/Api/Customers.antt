-- ===== src/Api/Customers.antt =====
-- `CustomersErrorResponse` and its response: crates/data_models/src/errors/customers_error_response.rs
-- and transformers.rs.
use mercado.Errors.{DatabaseError}
use mercado.Prelude.{Bool, if◌then◌else◌, none, true, false}
use mercado.Errors.{StorageError}
use mercado.Api.Errors.{ApiErrorResponse}
use mercado.Api.Types.{Response, api_error}

pub data CustomersErrorResponse : Type 0 where
  customer_redacted internal_server_error mandate_active : CustomersErrorResponse
  customer_not_found customer_already_exists : CustomersErrorResponse

-- `CustomersErrorResponse::switch`
unfoldable pub customers_switch : {Json : Type 0} → CustomersErrorResponse → Response Json
customers_switch CustomersErrorResponse.customer_redacted =
    Response.bad_request (api_error "IR" 11 "Customer has already been redacted" none)
customers_switch CustomersErrorResponse.internal_server_error =
    Response.internal_server_error (api_error "HE" 0 "Something went wrong" none)
customers_switch CustomersErrorResponse.mandate_active =
    Response.bad_request (api_error "IR" 10 "Customer has active mandate/subsciption" none)
customers_switch CustomersErrorResponse.customer_not_found =
    Response.not_found (api_error "HE" 2 "Customer does not exist in our records" none)
customers_switch CustomersErrorResponse.customer_already_exists =
    Response.bad_request
      (api_error "IR" 12 "Customer with the given `customer_id` already exists" none)

-- `ApiErrorResponse::switch` to an error of customers.
unfoldable pub api_to_customers : {Json : Type 0} → ApiErrorResponse Json → CustomersErrorResponse
api_to_customers ApiErrorResponse.internal_server_error =
    CustomersErrorResponse.internal_server_error
api_to_customers ApiErrorResponse.mandate_active = CustomersErrorResponse.mandate_active
api_to_customers ApiErrorResponse.customer_not_found = CustomersErrorResponse.customer_not_found
api_to_customers _ = CustomersErrorResponse.internal_server_error

-- `StorageError::is_db_not_found` and `is_db_unique_violation`, of errors/db.rs.
unfoldable pub is_db_not_found : StorageError → Bool
is_db_not_found (StorageError.database_error DatabaseError.not_found) = true
is_db_not_found (StorageError.value_not_found _) = true
is_db_not_found _ = false

unfoldable pub is_db_unique_violation : StorageError → Bool
is_db_unique_violation (StorageError.database_error DatabaseError.unique_violation) = true
is_db_unique_violation _ = false

-- The arms below the guard of `StorageError::switch` and of `to_not_found_response`.
redacted_or_internal : StorageError → CustomersErrorResponse
redacted_or_internal StorageError.customer_redacted = CustomersErrorResponse.customer_redacted
redacted_or_internal _ = CustomersErrorResponse.internal_server_error

-- `StorageError::switch`
unfoldable pub storage_to_customers : StorageError → CustomersErrorResponse
unfolding redacted_or_internal
storage_to_customers e =
    if is_db_not_found e then CustomersErrorResponse.customer_not_found else redacted_or_internal e

-- `StorageErrorExt` for `CustomersErrorResponse`, crates/data_models/src/errors/utils.rs.
unfoldable pub customers_not_found : CustomersErrorResponse → StorageError → CustomersErrorResponse
unfolding redacted_or_internal
customers_not_found not_found_response e =
    if is_db_not_found e then not_found_response else redacted_or_internal e

unfoldable pub customers_duplicate : CustomersErrorResponse → StorageError → CustomersErrorResponse
customers_duplicate duplicate_response e =
    if is_db_unique_violation e
    then duplicate_response
    else CustomersErrorResponse.internal_server_error

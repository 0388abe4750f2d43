-- ===== src/Api/Switch.antt =====
-- `ApiErrorResponse::switch` of crates/data_models/src/errors/transformers.rs: the response of each error.
use mercado.Api.Types.{Response, api_error, no_extra}
use mercado.Prelude.{List, Option, String, ℕ, concat_texts, some, none, ◌∷◌, []}
use mercado.Api.Errors.{ApiErrorResponse, NotImplementedMessage}

-- `{message:?}` of a `NotImplementedMessage`
debug_message : NotImplementedMessage → String
debug_message (NotImplementedMessage.reason message) =
    concat_texts (message ∷ " is not implemented" ∷ [])
debug_message NotImplementedMessage.default =
    "This API is under development and will be made available soon."

-- `serde_json::json!` of a list of texts, and `StatusCode::from_u16` of the http crate.
pub record Web (Json : Type 0) : Type 0 where
  pub json_of : List String → Json
  pub from_u16 : ℕ → Option ℕ

unwrap_or : Option ℕ → ℕ → ℕ
unwrap_or (some n) default = n
unwrap_or none default = default

unfoldable pub switch : {Json : Type 0} → Web Json → ApiErrorResponse Json → Response Json
unfolding debug_message unwrap_or
switch _ (ApiErrorResponse.not_implemented message) =
    Response.not_implemented (api_error "IR" 0 (debug_message message) none)
switch _ ApiErrorResponse.unauthorized =
    Response.unauthorized (api_error "IR" 1 "API key not provided or invalid API key used" none)
switch _ ApiErrorResponse.invalid_request_url =
    Response.not_found (api_error "IR" 2 "Unrecognized request URL" none)
switch _ ApiErrorResponse.invalid_http_method =
    Response.method_not_allowed
      (api_error "IR" 3 "The HTTP method is not applicable for this API" none)
switch _ (ApiErrorResponse.missing_required_field field_name) =
    Response.bad_request
      (api_error "IR" 4 (concat_texts ("Missing required param: " ∷ field_name ∷ [])) none)
switch _ (ApiErrorResponse.invalid_data_format field_name expected_format) =
    Response.unprocessable (
      api_error "IR" 5
        (concat_texts
          (field_name ∷ " contains invalid data. Expected format is " ∷ expected_format ∷ []))
        none)
switch _ (ApiErrorResponse.invalid_request_data message) =
    Response.unprocessable (api_error "IR" 6 message none)
switch _ (ApiErrorResponse.invalid_data_value field_name) =
    Response.bad_request
      (api_error "IR" 7 (concat_texts ("Invalid value provided: " ∷ field_name ∷ [])) none)
switch _ ApiErrorResponse.client_secret_not_given =
    Response.bad_request (api_error "IR" 8 "client_secret was not provided" none)
switch _ ApiErrorResponse.client_secret_invalid = Response.bad_request (
    api_error "IR" 9
      "The client_secret provided does not match the client_secret associated with the Payment"
      none)
switch _ (ApiErrorResponse.currency_not_supported message) =
    Response.bad_request (api_error "IR" 9 message none)
switch _ ApiErrorResponse.mandate_active =
    Response.bad_request (api_error "IR" 10 "Customer has active mandate/subsciption" none)
switch _ ApiErrorResponse.customer_redacted =
    Response.bad_request (api_error "IR" 11 "Customer has already been redacted" none)
switch _ ApiErrorResponse.maximum_refund_count =
    Response.bad_request (api_error "IR" 12 "Reached maximum refund attempts" none)
switch _ ApiErrorResponse.refund_amount_exceeds_payment_amount =
    Response.bad_request (api_error "IR" 13 "The refund amount exceeds the amount captured" none)
switch _ (ApiErrorResponse.payment_unexpected_state current_flow field_name current_value states) =
    Response.bad_request (
      api_error "IR" 14
        (concat_texts (
          "This Payment could not be " ∷ current_flow ∷ " because it has a " ∷ field_name ∷ " of "
          ∷ current_value ∷ ". The expected state is " ∷ states ∷ []))
        none)
switch _ ApiErrorResponse.invalid_ephemeral_key =
    Response.unauthorized (api_error "IR" 15 "Invalid Ephemeral Key for the customer" none)
switch _ (ApiErrorResponse.precondition_failed message) =
    Response.bad_request (api_error "IR" 16 message none)
switch _ ApiErrorResponse.invalid_jwt_token =
    Response.unauthorized (api_error "IR" 17 "Access forbidden, invalid JWT token was used" none)
switch _ (ApiErrorResponse.generic_unauthorized message) =
    Response.unauthorized (api_error "IR" 18 message none)
switch _ ApiErrorResponse.client_secret_expired =
    Response.bad_request (api_error "IR" 19 "The provided client_secret has expired" none)
switch web (ApiErrorResponse.missing_required_fields field_names) = Response.bad_request (
    api_error "IR" 21 "Missing required params"
      (some (record no_extra { payload = some (web.json_of field_names) })))
switch _ (ApiErrorResponse.access_forbidden resource) = Response.forbidden_common_resource (
    api_error "IR" 22
      (concat_texts ("Access forbidden. Not authorized to access this resource " ∷ resource ∷ []))
      none)
switch _ (ApiErrorResponse.file_provider_not_supported message) =
    Response.bad_request (api_error "IR" 23 message none)
switch _ (ApiErrorResponse.unprocessable_entity message) =
    Response.unprocessable (api_error "IR" 23 message none)
switch web (ApiErrorResponse.external_connector_error code message connector status_code reason) =
    Response.connector_error
      (api_error "CE" 0 (concat_texts (code ∷ ": " ∷ message ∷ []))
        (some (record no_extra { connector = some connector; reason = reason })))
      (unwrap_or (web.from_u16 status_code) 500)
switch _ (ApiErrorResponse.payment_authorization_failed payload) = Response.bad_request (
    api_error "CE" 1 "Payment failed during authorization with connector. Retry payment"
      (some (record no_extra { payload = payload })))
switch _ (ApiErrorResponse.payment_authentication_failed payload) = Response.bad_request (
    api_error "CE" 2 "Payment failed during authentication with connector. Retry payment"
      (some (record no_extra { payload = payload })))
switch _ (ApiErrorResponse.payment_capture_failed payload) = Response.bad_request (
    api_error "CE" 3 "Capture attempt failed while processing with connector"
      (some (record no_extra { payload = payload })))
switch _ (ApiErrorResponse.dispute_failed payload) = Response.bad_request (
    api_error "CE" 1 "Dispute operation failed while processing with connector. Retry operation"
      (some (record no_extra { payload = payload })))
switch _ (ApiErrorResponse.invalid_card_data payload) =
    Response.bad_request
      (api_error "CE" 4 "The card data is invalid" (some (record no_extra { payload = payload })))
switch _ (ApiErrorResponse.card_expired payload) =
    Response.bad_request
      (api_error "CE" 5 "The card has expired" (some (record no_extra { payload = payload })))
switch _ (ApiErrorResponse.refund_failed payload) = Response.bad_request (
    api_error "CE" 6 "Refund failed while processing with connector. Retry refund"
      (some (record no_extra { payload = payload })))
switch _ (ApiErrorResponse.verification_failed payload) = Response.bad_request (
    api_error "CE" 7 "Verification failed while processing with connector. Retry operation"
      (some (record no_extra { payload = payload })))
switch _ ApiErrorResponse.mandate_update_failed =
    Response.internal_server_error (api_error "HE" 0 "Something went wrong" none)
switch _ ApiErrorResponse.mandate_serialization_failed =
    Response.internal_server_error (api_error "HE" 0 "Something went wrong" none)
switch _ ApiErrorResponse.mandate_deserialization_failed =
    Response.internal_server_error (api_error "HE" 0 "Something went wrong" none)
switch _ ApiErrorResponse.internal_server_error =
    Response.internal_server_error (api_error "HE" 0 "Something went wrong" none)
switch _ (ApiErrorResponse.health_check_error component message) = Response.internal_server_error (
    api_error "HE" 0 (concat_texts (component ∷ " health check failed with error: " ∷ message ∷ []))
      none)
switch _ (ApiErrorResponse.payout_failed payload) = Response.bad_request (
    api_error "CE" 4 "Payout failed while processing with connector."
      (some (record no_extra { payload = payload })))
switch _ ApiErrorResponse.duplicate_refund_request =
    Response.bad_request (
      api_error "HE" 1 "Duplicate refund request. Refund already attempted with the refund ID" none)
switch _ ApiErrorResponse.duplicate_mandate = Response.bad_request (
    api_error "HE" 1 "Duplicate mandate request. Mandate already attempted with the Mandate ID"
      none)
switch _ ApiErrorResponse.duplicate_merchant_account = Response.bad_request (
    api_error "HE" 1 "The merchant account with the specified details already exists in our records"
      none)
switch _ (ApiErrorResponse.duplicate_merchant_connector_account profile_id connector_name) =
    Response.bad_request (
      api_error "HE" 1
        (concat_texts (
          "The merchant connector account with the specified profile_id '" ∷ profile_id
          ∷ "' and connector_label '" ∷ connector_name ∷ "' already exists in our records" ∷ []))
        none)
switch _ ApiErrorResponse.duplicate_payment_method = Response.bad_request (
    api_error "HE" 1 "The payment method with the specified details already exists in our records"
      none)
switch _ (ApiErrorResponse.duplicate_payment payment_id) = Response.bad_request (
    api_error "HE" 1 "The payment with the specified payment_id already exists in our records" (
      some
        (record no_extra { reason = some (concat_texts (payment_id ∷ " already exists" ∷ [])) })))
switch _ (ApiErrorResponse.duplicate_payout payout_id) = Response.bad_request (
    api_error "HE" 1
      (concat_texts (
        "The payout with the specified payout_id '" ∷ payout_id ∷ "' already exists in our records"
        ∷ []))
      none)
switch _ (ApiErrorResponse.generic_duplicate_error message) =
    Response.bad_request (api_error "HE" 1 message none)
switch _ ApiErrorResponse.refund_not_found =
    Response.not_found (api_error "HE" 2 "Refund does not exist in our records." none)
switch _ ApiErrorResponse.customer_not_found =
    Response.not_found (api_error "HE" 2 "Customer does not exist in our records" none)
switch _ ApiErrorResponse.config_not_found =
    Response.not_found (api_error "HE" 2 "Config key does not exist in our records." none)
switch _ ApiErrorResponse.duplicate_config =
    Response.bad_request
      (api_error "HE" 1 "The config with the specified key already exists in our records" none)
switch _ ApiErrorResponse.payment_not_found =
    Response.not_found (api_error "HE" 2 "Payment does not exist in our records" none)
switch _ ApiErrorResponse.payment_method_not_found =
    Response.not_found (api_error "HE" 2 "Payment method does not exist in our records" none)
switch _ ApiErrorResponse.merchant_account_not_found =
    Response.not_found (api_error "HE" 2 "Merchant account does not exist in our records" none)
switch _ (ApiErrorResponse.merchant_connector_account_not_found id) = Response.not_found (
    api_error "HE" 2 "Merchant connector account does not exist in our records"
      (some (record no_extra { reason = some (concat_texts (id ∷ " does not exist" ∷ [])) })))
switch _ ApiErrorResponse.merchant_connector_account_disabled =
    Response.bad_request
      (api_error "HE" 3 "The selected merchant connector account is disabled" none)
switch _ ApiErrorResponse.resource_id_not_found =
    Response.not_found (api_error "HE" 2 "Resource ID does not exist in our records" none)
switch _ ApiErrorResponse.mandate_not_found =
    Response.not_found (api_error "HE" 2 "Mandate does not exist in our records" none)
switch _ ApiErrorResponse.payout_not_found =
    Response.not_found (api_error "HE" 2 "Payout does not exist in our records" none)
switch _ ApiErrorResponse.event_not_found =
    Response.not_found (api_error "HE" 2 "Event does not exist in our records" none)
switch _ ApiErrorResponse.return_url_unavailable =
    Response.not_found
      (api_error "HE" 3 "Return URL is not configured and not passed in payments request" none)
switch _ (ApiErrorResponse.refund_not_possible connector) = Response.bad_request (
    api_error "HE" 3
      (concat_texts (
        "This refund is not possible through Hyperswitch. Please raise the refund through "
        ∷ connector ∷ " dashboard" ∷ []))
      none)
switch _ (ApiErrorResponse.mandate_validation_failed reason) =
    Response.bad_request (
      api_error "HE" 3 "Mandate Validation Failed"
        (some (record no_extra { reason = some reason })))
switch _ ApiErrorResponse.payment_not_succeeded = Response.bad_request (
    api_error "HE" 3
      "The payment has not succeeded yet. Please pass a successful payment to initiate refund" none)
switch _ (ApiErrorResponse.payment_blocked_error _ message _ reason) =
    Response.domain_error
      (api_error "HE" 3 message (some (record no_extra { reason = some reason })))
switch _ ApiErrorResponse.successful_payment_not_found =
    Response.not_found
      (api_error "HE" 4 "Successful payment not found for the given payment id" none)
switch _ ApiErrorResponse.incorrect_connector_name_given =
    Response.not_found
      (api_error "HE" 4 "The connector provided in the request is incorrect or not available" none)
switch _ ApiErrorResponse.address_not_found =
    Response.not_found (api_error "HE" 4 "Address does not exist in our records" none)
switch _ (ApiErrorResponse.generic_not_found_error message) =
    Response.not_found (api_error "HE" 5 message none)
switch _ ApiErrorResponse.api_key_not_found =
    Response.not_found (api_error "HE" 2 "API Key does not exist in our records" none)
switch _ (ApiErrorResponse.not_supported message) = Response.bad_request (
    api_error "HE" 3 "Payment method type not supported"
      (some (record no_extra { reason = some message })))
switch _ ApiErrorResponse.invalid_card_iin =
    Response.bad_request (api_error "HE" 3 "The provided card IIN does not exist" none)
switch _ ApiErrorResponse.invalid_card_iin_length = Response.bad_request (
    api_error "HE" 3 "The provided card IIN length is invalid, please provide an IIN with 6 digits"
      none)
switch _ (ApiErrorResponse.flow_not_supported flow connector) = Response.bad_request (
    api_error "IR" 20 (concat_texts (flow ∷ " flow not supported" ∷ []))
      (some (record no_extra { connector = some connector })))
switch _ (ApiErrorResponse.dispute_not_found _) =
    Response.not_found (api_error "HE" 2 "Dispute does not exist in our records" none)
switch _ (ApiErrorResponse.business_profile_not_found id) = Response.not_found (
    api_error "HE" 2
      (concat_texts ("Business profile with the given id " ∷ id ∷ " does not exist" ∷ [])) none)
switch _ ApiErrorResponse.file_not_found =
    Response.not_found (api_error "HE" 2 "File does not exist in our records" none)
switch _ ApiErrorResponse.file_not_available =
    Response.not_found (api_error "HE" 2 "File not available" none)
switch _ (ApiErrorResponse.dispute_status_validation_failed _) =
    Response.bad_request (api_error "HE" 2 "Dispute status validation failed" none)
switch _ (ApiErrorResponse.file_validation_failed reason) =
    Response.bad_request
      (api_error "HE" 2 (concat_texts ("File validation failed " ∷ reason ∷ [])) none)
switch _ ApiErrorResponse.missing_file =
    Response.bad_request (api_error "HE" 2 "File not found in the request" none)
switch _ ApiErrorResponse.missing_file_purpose =
    Response.bad_request
      (api_error "HE" 2 "File purpose not found in the request or is invalid" none)
switch _ ApiErrorResponse.missing_file_content_type =
    Response.bad_request (api_error "HE" 2 "File content type not found" none)
switch _ ApiErrorResponse.missing_dispute_id =
    Response.bad_request (api_error "HE" 2 "Dispute id not found in the request" none)
switch _ ApiErrorResponse.webhook_authentication_failed =
    Response.unauthorized (api_error "WE" 1 "Webhook authentication failed" none)
switch _ ApiErrorResponse.webhook_resource_not_found =
    Response.not_found (api_error "WE" 4 "Webhook resource was not found" none)
switch _ ApiErrorResponse.webhook_bad_request =
    Response.bad_request (api_error "WE" 2 "Bad request body received" none)
switch _ ApiErrorResponse.webhook_processing_failure =
    Response.internal_server_error
      (api_error "WE" 3 "There was an issue processing the webhook" none)
switch _ ApiErrorResponse.webhook_invalid_merchant_secret =
    Response.bad_request
      (api_error "WE" 2 "Merchant Secret set for webhook source verificartion is invalid" none)
switch _ ApiErrorResponse.incorrect_payment_method_configuration = Response.bad_request (
    api_error "HE" 4 "No eligible connector was found for the current payment method configuration"
      none)
switch _ ApiErrorResponse.webhook_unprocessable_entity =
    Response.unprocessable (api_error "WE" 5 "There was an issue processing the webhook body" none)
switch _ ApiErrorResponse.resource_busy =
    Response.unprocessable (api_error "WE" 5 "There was an issue processing the webhook body" none)
switch _ ApiErrorResponse.payment_link_not_found =
    Response.not_found (api_error "HE" 2 "Payment Link does not exist in our records" none)
switch _ (ApiErrorResponse.invalid_connector_configuration config) = Response.bad_request (
    api_error "IR" 24
      (concat_texts ("Merchant connector account is configured with invalid " ∷ config ∷ [])) none)
switch _ ApiErrorResponse.currency_conversion_failed =
    Response.unprocessable (api_error "HE" 2 "Failed to convert currency to minor unit" none)
switch _ ApiErrorResponse.payment_method_delete_failed =
    Response.bad_request (api_error "IR" 25 "Cannot delete the default payment method" none)

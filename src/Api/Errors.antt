-- ===== src/Api/Errors.antt =====
-- `ApiErrorResponse` of crates/data_models/src/errors/api_error.rs, and what its attributes declare. A JSON
-- value is a parameter.
use mercado.Prelude.{String, Option, ℕ, List}

pub data ErrorType : Type 0 where
  invalid_request_error object_not_found router_error processing_error bad_gateway : ErrorType
  server_not_available duplicate_request validation_error connector_error lock_timeout : ErrorType

pub data NotImplementedMessage : Type 0 where
  reason : String → NotImplementedMessage
  default : NotImplementedMessage

pub data ApiErrorResponse (Json : Type 0) : Type 0 where
  not_implemented : (message : NotImplementedMessage) → ApiErrorResponse Json
  unauthorized : ApiErrorResponse Json
  invalid_request_url : ApiErrorResponse Json
  invalid_http_method : ApiErrorResponse Json
  missing_required_field : (field_name : String) → ApiErrorResponse Json
  invalid_data_format : (field_name : String) (expected_format : String) → ApiErrorResponse Json
  invalid_request_data : (message : String) → ApiErrorResponse Json
  invalid_data_value : (field_name : String) → ApiErrorResponse Json
  client_secret_not_given : ApiErrorResponse Json
  client_secret_expired : ApiErrorResponse Json
  client_secret_invalid : ApiErrorResponse Json
  mandate_active : ApiErrorResponse Json
  customer_redacted : ApiErrorResponse Json
  maximum_refund_count : ApiErrorResponse Json
  refund_amount_exceeds_payment_amount : ApiErrorResponse Json
  payment_unexpected_state :
      (current_flow : String) (field_name : String) (current_value : String) (states : String)
      → ApiErrorResponse Json
  invalid_ephemeral_key : ApiErrorResponse Json
  precondition_failed : (message : String) → ApiErrorResponse Json
  invalid_jwt_token : ApiErrorResponse Json
  generic_unauthorized : (message : String) → ApiErrorResponse Json
  not_supported : (message : String) → ApiErrorResponse Json
  flow_not_supported : (flow : String) (connector : String) → ApiErrorResponse Json
  missing_required_fields : (field_names : List String) → ApiErrorResponse Json
  access_forbidden : (resource : String) → ApiErrorResponse Json
  file_provider_not_supported : (message : String) → ApiErrorResponse Json
  unprocessable_entity : (message : String) → ApiErrorResponse Json
  external_connector_error :
      (code : String) (message : String) (connector : String) (status_code : ℕ)
      (reason : Option String)
      → ApiErrorResponse Json
  payment_authorization_failed : (payload : Option Json) → ApiErrorResponse Json
  payment_authentication_failed : (payload : Option Json) → ApiErrorResponse Json
  payment_capture_failed : (payload : Option Json) → ApiErrorResponse Json
  invalid_card_data : (payload : Option Json) → ApiErrorResponse Json
  payout_failed : (payload : Option Json) → ApiErrorResponse Json
  card_expired : (payload : Option Json) → ApiErrorResponse Json
  refund_failed : (payload : Option Json) → ApiErrorResponse Json
  verification_failed : (payload : Option Json) → ApiErrorResponse Json
  dispute_failed : (payload : Option Json) → ApiErrorResponse Json
  internal_server_error : ApiErrorResponse Json
  resource_busy : ApiErrorResponse Json
  duplicate_refund_request : ApiErrorResponse Json
  duplicate_mandate : ApiErrorResponse Json
  duplicate_merchant_account : ApiErrorResponse Json
  duplicate_merchant_connector_account :
      (profile_id : String) (connector_label : String) → ApiErrorResponse Json
  duplicate_payment_method : ApiErrorResponse Json
  duplicate_payment : (payment_id : String) → ApiErrorResponse Json
  duplicate_payout : (payout_id : String) → ApiErrorResponse Json
  duplicate_config : ApiErrorResponse Json
  refund_not_found : ApiErrorResponse Json
  customer_not_found : ApiErrorResponse Json
  config_not_found : ApiErrorResponse Json
  payment_not_found : ApiErrorResponse Json
  payment_method_not_found : ApiErrorResponse Json
  merchant_account_not_found : ApiErrorResponse Json
  merchant_connector_account_not_found : (id : String) → ApiErrorResponse Json
  business_profile_not_found : (id : String) → ApiErrorResponse Json
  resource_id_not_found : ApiErrorResponse Json
  mandate_not_found : ApiErrorResponse Json
  mandate_update_failed : ApiErrorResponse Json
  api_key_not_found : ApiErrorResponse Json
  payout_not_found : ApiErrorResponse Json
  event_not_found : ApiErrorResponse Json
  mandate_serialization_failed : ApiErrorResponse Json
  mandate_deserialization_failed : ApiErrorResponse Json
  return_url_unavailable : ApiErrorResponse Json
  refund_not_possible : (connector : String) → ApiErrorResponse Json
  mandate_validation_failed : (reason : String) → ApiErrorResponse Json
  payment_not_succeeded : ApiErrorResponse Json
  merchant_connector_account_disabled : ApiErrorResponse Json
  payment_blocked_error :
      (code : ℕ) (message : String) (status : String) (reason : String) → ApiErrorResponse Json
  successful_payment_not_found : ApiErrorResponse Json
  incorrect_connector_name_given : ApiErrorResponse Json
  address_not_found : ApiErrorResponse Json
  dispute_not_found : (dispute_id : String) → ApiErrorResponse Json
  file_not_found : ApiErrorResponse Json
  file_not_available : ApiErrorResponse Json
  dispute_status_validation_failed : (reason : String) → ApiErrorResponse Json
  invalid_card_iin : ApiErrorResponse Json
  invalid_card_iin_length : ApiErrorResponse Json
  file_validation_failed : (reason : String) → ApiErrorResponse Json
  missing_file : ApiErrorResponse Json
  missing_dispute_id : ApiErrorResponse Json
  missing_file_purpose : ApiErrorResponse Json
  missing_file_content_type : ApiErrorResponse Json
  generic_not_found_error : (message : String) → ApiErrorResponse Json
  generic_duplicate_error : (message : String) → ApiErrorResponse Json
  webhook_authentication_failed : ApiErrorResponse Json
  webhook_resource_not_found : ApiErrorResponse Json
  webhook_bad_request : ApiErrorResponse Json
  webhook_processing_failure : ApiErrorResponse Json
  incorrect_payment_method_configuration : ApiErrorResponse Json
  webhook_unprocessable_entity : ApiErrorResponse Json
  payment_link_not_found : ApiErrorResponse Json
  webhook_invalid_merchant_secret : ApiErrorResponse Json
  currency_not_supported : (message : String) → ApiErrorResponse Json
  health_check_error : (component : String) (message : String) → ApiErrorResponse Json
  invalid_connector_configuration : (config : String) → ApiErrorResponse Json
  currency_conversion_failed : ApiErrorResponse Json
  payment_method_delete_failed : ApiErrorResponse Json

-- The attribute `error_type` of each error.
unfoldable pub error_type : {Json : Type 0} → ApiErrorResponse Json → ErrorType
error_type (ApiErrorResponse.not_implemented _) = ErrorType.server_not_available
error_type ApiErrorResponse.unauthorized = ErrorType.invalid_request_error
error_type ApiErrorResponse.invalid_request_url = ErrorType.invalid_request_error
error_type ApiErrorResponse.invalid_http_method = ErrorType.invalid_request_error
error_type (ApiErrorResponse.missing_required_field _) = ErrorType.invalid_request_error
error_type (ApiErrorResponse.invalid_data_format _ _) = ErrorType.invalid_request_error
error_type (ApiErrorResponse.invalid_request_data _) = ErrorType.invalid_request_error
error_type (ApiErrorResponse.invalid_data_value _) = ErrorType.invalid_request_error
error_type ApiErrorResponse.client_secret_not_given = ErrorType.invalid_request_error
error_type ApiErrorResponse.client_secret_expired = ErrorType.invalid_request_error
error_type ApiErrorResponse.client_secret_invalid = ErrorType.invalid_request_error
error_type ApiErrorResponse.mandate_active = ErrorType.invalid_request_error
error_type ApiErrorResponse.customer_redacted = ErrorType.invalid_request_error
error_type ApiErrorResponse.maximum_refund_count = ErrorType.invalid_request_error
error_type ApiErrorResponse.refund_amount_exceeds_payment_amount = ErrorType.invalid_request_error
error_type (ApiErrorResponse.payment_unexpected_state _ _ _ _) = ErrorType.invalid_request_error
error_type ApiErrorResponse.invalid_ephemeral_key = ErrorType.invalid_request_error
error_type (ApiErrorResponse.precondition_failed _) = ErrorType.invalid_request_error
error_type ApiErrorResponse.invalid_jwt_token = ErrorType.invalid_request_error
error_type (ApiErrorResponse.generic_unauthorized _) = ErrorType.invalid_request_error
error_type (ApiErrorResponse.not_supported _) = ErrorType.invalid_request_error
error_type (ApiErrorResponse.flow_not_supported _ _) = ErrorType.invalid_request_error
error_type (ApiErrorResponse.missing_required_fields _) = ErrorType.invalid_request_error
error_type (ApiErrorResponse.access_forbidden _) = ErrorType.invalid_request_error
error_type (ApiErrorResponse.file_provider_not_supported _) = ErrorType.invalid_request_error
error_type (ApiErrorResponse.unprocessable_entity _) = ErrorType.invalid_request_error
error_type (ApiErrorResponse.external_connector_error _ _ _ _ _) = ErrorType.connector_error
error_type (ApiErrorResponse.payment_authorization_failed _) = ErrorType.processing_error
error_type (ApiErrorResponse.payment_authentication_failed _) = ErrorType.processing_error
error_type (ApiErrorResponse.payment_capture_failed _) = ErrorType.processing_error
error_type (ApiErrorResponse.invalid_card_data _) = ErrorType.processing_error
error_type (ApiErrorResponse.payout_failed _) = ErrorType.invalid_request_error
error_type (ApiErrorResponse.card_expired _) = ErrorType.processing_error
error_type (ApiErrorResponse.refund_failed _) = ErrorType.processing_error
error_type (ApiErrorResponse.verification_failed _) = ErrorType.processing_error
error_type (ApiErrorResponse.dispute_failed _) = ErrorType.processing_error
error_type ApiErrorResponse.internal_server_error = ErrorType.server_not_available
error_type ApiErrorResponse.resource_busy = ErrorType.lock_timeout
error_type ApiErrorResponse.duplicate_refund_request = ErrorType.duplicate_request
error_type ApiErrorResponse.duplicate_mandate = ErrorType.duplicate_request
error_type ApiErrorResponse.duplicate_merchant_account = ErrorType.duplicate_request
error_type (ApiErrorResponse.duplicate_merchant_connector_account _ _) = ErrorType.duplicate_request
error_type ApiErrorResponse.duplicate_payment_method = ErrorType.duplicate_request
error_type (ApiErrorResponse.duplicate_payment _) = ErrorType.duplicate_request
error_type (ApiErrorResponse.duplicate_payout _) = ErrorType.duplicate_request
error_type ApiErrorResponse.duplicate_config = ErrorType.duplicate_request
error_type ApiErrorResponse.refund_not_found = ErrorType.object_not_found
error_type ApiErrorResponse.customer_not_found = ErrorType.object_not_found
error_type ApiErrorResponse.config_not_found = ErrorType.object_not_found
error_type ApiErrorResponse.payment_not_found = ErrorType.object_not_found
error_type ApiErrorResponse.payment_method_not_found = ErrorType.object_not_found
error_type ApiErrorResponse.merchant_account_not_found = ErrorType.object_not_found
error_type (ApiErrorResponse.merchant_connector_account_not_found _) = ErrorType.object_not_found
error_type (ApiErrorResponse.business_profile_not_found _) = ErrorType.object_not_found
error_type ApiErrorResponse.resource_id_not_found = ErrorType.object_not_found
error_type ApiErrorResponse.mandate_not_found = ErrorType.object_not_found
error_type ApiErrorResponse.mandate_update_failed = ErrorType.object_not_found
error_type ApiErrorResponse.api_key_not_found = ErrorType.object_not_found
error_type ApiErrorResponse.payout_not_found = ErrorType.object_not_found
error_type ApiErrorResponse.event_not_found = ErrorType.object_not_found
error_type ApiErrorResponse.mandate_serialization_failed = ErrorType.validation_error
error_type ApiErrorResponse.mandate_deserialization_failed = ErrorType.validation_error
error_type ApiErrorResponse.return_url_unavailable = ErrorType.validation_error
error_type (ApiErrorResponse.refund_not_possible _) = ErrorType.validation_error
error_type (ApiErrorResponse.mandate_validation_failed _) = ErrorType.validation_error
error_type ApiErrorResponse.payment_not_succeeded = ErrorType.validation_error
error_type ApiErrorResponse.merchant_connector_account_disabled = ErrorType.validation_error
error_type (ApiErrorResponse.payment_blocked_error _ _ _ _) = ErrorType.validation_error
error_type ApiErrorResponse.successful_payment_not_found = ErrorType.object_not_found
error_type ApiErrorResponse.incorrect_connector_name_given = ErrorType.object_not_found
error_type ApiErrorResponse.address_not_found = ErrorType.object_not_found
error_type (ApiErrorResponse.dispute_not_found _) = ErrorType.object_not_found
error_type ApiErrorResponse.file_not_found = ErrorType.object_not_found
error_type ApiErrorResponse.file_not_available = ErrorType.object_not_found
error_type (ApiErrorResponse.dispute_status_validation_failed _) = ErrorType.invalid_request_error
error_type ApiErrorResponse.invalid_card_iin = ErrorType.invalid_request_error
error_type ApiErrorResponse.invalid_card_iin_length = ErrorType.invalid_request_error
error_type (ApiErrorResponse.file_validation_failed _) = ErrorType.validation_error
error_type ApiErrorResponse.missing_file = ErrorType.invalid_request_error
error_type ApiErrorResponse.missing_dispute_id = ErrorType.invalid_request_error
error_type ApiErrorResponse.missing_file_purpose = ErrorType.invalid_request_error
error_type ApiErrorResponse.missing_file_content_type = ErrorType.invalid_request_error
error_type (ApiErrorResponse.generic_not_found_error _) = ErrorType.invalid_request_error
error_type (ApiErrorResponse.generic_duplicate_error _) = ErrorType.invalid_request_error
error_type ApiErrorResponse.webhook_authentication_failed = ErrorType.invalid_request_error
error_type ApiErrorResponse.webhook_resource_not_found = ErrorType.object_not_found
error_type ApiErrorResponse.webhook_bad_request = ErrorType.invalid_request_error
error_type ApiErrorResponse.webhook_processing_failure = ErrorType.router_error
error_type ApiErrorResponse.incorrect_payment_method_configuration = ErrorType.invalid_request_error
error_type ApiErrorResponse.webhook_unprocessable_entity = ErrorType.invalid_request_error
error_type ApiErrorResponse.payment_link_not_found = ErrorType.object_not_found
error_type ApiErrorResponse.webhook_invalid_merchant_secret = ErrorType.invalid_request_error
error_type (ApiErrorResponse.currency_not_supported _) = ErrorType.invalid_request_error
error_type (ApiErrorResponse.health_check_error _ _) = ErrorType.server_not_available
error_type (ApiErrorResponse.invalid_connector_configuration _) = ErrorType.invalid_request_error
error_type ApiErrorResponse.currency_conversion_failed = ErrorType.validation_error
error_type ApiErrorResponse.payment_method_delete_failed = ErrorType.invalid_request_error

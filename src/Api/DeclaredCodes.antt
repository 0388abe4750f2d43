-- ===== src/Api/DeclaredCodes.antt =====
-- The attribute `code` of each error of crates/data_models/src/errors/api_error.rs.
use mercado.Prelude.{String}
use mercado.Api.Errors.{ApiErrorResponse}

unfoldable pub error_code : {Json : Type 0} → ApiErrorResponse Json → String
error_code (ApiErrorResponse.not_implemented _) = "IR_00"
error_code ApiErrorResponse.unauthorized = "IR_01"
error_code ApiErrorResponse.invalid_request_url = "IR_02"
error_code ApiErrorResponse.invalid_http_method = "IR_03"
error_code (ApiErrorResponse.missing_required_field _) = "IR_04"
error_code (ApiErrorResponse.invalid_data_format _ _) = "IR_05"
error_code (ApiErrorResponse.invalid_request_data _) = "IR_06"
error_code (ApiErrorResponse.invalid_data_value _) = "IR_07"
error_code ApiErrorResponse.client_secret_not_given = "IR_08"
error_code ApiErrorResponse.client_secret_expired = "IR_08"
error_code ApiErrorResponse.client_secret_invalid = "IR_09"
error_code ApiErrorResponse.mandate_active = "IR_10"
error_code ApiErrorResponse.customer_redacted = "IR_11"
error_code ApiErrorResponse.maximum_refund_count = "IR_12"
error_code ApiErrorResponse.refund_amount_exceeds_payment_amount = "IR_13"
error_code (ApiErrorResponse.payment_unexpected_state _ _ _ _) = "IR_14"
error_code ApiErrorResponse.invalid_ephemeral_key = "IR_15"
error_code (ApiErrorResponse.precondition_failed _) = "IR_16"
error_code ApiErrorResponse.invalid_jwt_token = "IR_17"
error_code (ApiErrorResponse.generic_unauthorized _) = "IR_18"
error_code (ApiErrorResponse.not_supported _) = "IR_19"
error_code (ApiErrorResponse.flow_not_supported _ _) = "IR_20"
error_code (ApiErrorResponse.missing_required_fields _) = "IR_21"
error_code (ApiErrorResponse.access_forbidden _) = "IR_22"
error_code (ApiErrorResponse.file_provider_not_supported _) = "IR_23"
error_code (ApiErrorResponse.unprocessable_entity _) = "IR_23"
error_code (ApiErrorResponse.external_connector_error _ _ _ _ _) = "CE_00"
error_code (ApiErrorResponse.payment_authorization_failed _) = "CE_01"
error_code (ApiErrorResponse.payment_authentication_failed _) = "CE_02"
error_code (ApiErrorResponse.payment_capture_failed _) = "CE_03"
error_code (ApiErrorResponse.invalid_card_data _) = "CE_04"
error_code (ApiErrorResponse.payout_failed _) = "CE_04"
error_code (ApiErrorResponse.card_expired _) = "CE_05"
error_code (ApiErrorResponse.refund_failed _) = "CE_06"
error_code (ApiErrorResponse.verification_failed _) = "CE_07"
error_code (ApiErrorResponse.dispute_failed _) = "CE_08"
error_code ApiErrorResponse.internal_server_error = "HE_00"
error_code ApiErrorResponse.resource_busy = "HE_00"
error_code ApiErrorResponse.duplicate_refund_request = "HE_01"
error_code ApiErrorResponse.duplicate_mandate = "HE_01"
error_code ApiErrorResponse.duplicate_merchant_account = "HE_01"
error_code (ApiErrorResponse.duplicate_merchant_connector_account _ _) = "HE_01"
error_code ApiErrorResponse.duplicate_payment_method = "HE_01"
error_code (ApiErrorResponse.duplicate_payment _) = "HE_01"
error_code (ApiErrorResponse.duplicate_payout _) = "HE_01"
error_code ApiErrorResponse.duplicate_config = "HE_01"
error_code ApiErrorResponse.refund_not_found = "HE_02"
error_code ApiErrorResponse.customer_not_found = "HE_02"
error_code ApiErrorResponse.config_not_found = "RE_02"
error_code ApiErrorResponse.payment_not_found = "HE_02"
error_code ApiErrorResponse.payment_method_not_found = "HE_02"
error_code ApiErrorResponse.merchant_account_not_found = "HE_02"
error_code (ApiErrorResponse.merchant_connector_account_not_found _) = "HE_02"
error_code (ApiErrorResponse.business_profile_not_found _) = "HE_02"
error_code ApiErrorResponse.resource_id_not_found = "HE_02"
error_code ApiErrorResponse.mandate_not_found = "HE_02"
error_code ApiErrorResponse.mandate_update_failed = "HE_02"
error_code ApiErrorResponse.api_key_not_found = "HE_02"
error_code ApiErrorResponse.payout_not_found = "HE_02"
error_code ApiErrorResponse.event_not_found = "HE_02"
error_code ApiErrorResponse.mandate_serialization_failed = "HE_03"
error_code ApiErrorResponse.mandate_deserialization_failed = "HE_03"
error_code ApiErrorResponse.return_url_unavailable = "HE_03"
error_code (ApiErrorResponse.refund_not_possible _) = "HE_03"
error_code (ApiErrorResponse.mandate_validation_failed _) = "HE_03"
error_code ApiErrorResponse.payment_not_succeeded = "HE_03"
error_code ApiErrorResponse.merchant_connector_account_disabled = "HE_03"
error_code (ApiErrorResponse.payment_blocked_error _ _ _ _) = "HE_03"
error_code ApiErrorResponse.successful_payment_not_found = "HE_04"
error_code ApiErrorResponse.incorrect_connector_name_given = "HE_04"
error_code ApiErrorResponse.address_not_found = "HE_04"
error_code (ApiErrorResponse.dispute_not_found _) = "HE_04"
error_code ApiErrorResponse.file_not_found = "HE_04"
error_code ApiErrorResponse.file_not_available = "HE_04"
error_code (ApiErrorResponse.dispute_status_validation_failed _) = "HE_04"
error_code ApiErrorResponse.invalid_card_iin = "HE_04"
error_code ApiErrorResponse.invalid_card_iin_length = "HE_04"
error_code (ApiErrorResponse.file_validation_failed _) = "HE_03"
error_code ApiErrorResponse.missing_file = "HE_04"
error_code ApiErrorResponse.missing_dispute_id = "HE_04"
error_code ApiErrorResponse.missing_file_purpose = "HE_04"
error_code ApiErrorResponse.missing_file_content_type = "HE_04"
error_code (ApiErrorResponse.generic_not_found_error _) = "HE_05"
error_code (ApiErrorResponse.generic_duplicate_error _) = "HE_01"
error_code ApiErrorResponse.webhook_authentication_failed = "WE_01"
error_code ApiErrorResponse.webhook_resource_not_found = "WE_04"
error_code ApiErrorResponse.webhook_bad_request = "WE_02"
error_code ApiErrorResponse.webhook_processing_failure = "WE_03"
error_code ApiErrorResponse.incorrect_payment_method_configuration = "HE_04"
error_code ApiErrorResponse.webhook_unprocessable_entity = "WE_05"
error_code ApiErrorResponse.payment_link_not_found = "HE_02"
error_code ApiErrorResponse.webhook_invalid_merchant_secret = "WE_05"
error_code (ApiErrorResponse.currency_not_supported _) = "IR_19"
error_code (ApiErrorResponse.health_check_error _ _) = "HE_00"
error_code (ApiErrorResponse.invalid_connector_configuration _) = "IR_24"
error_code ApiErrorResponse.currency_conversion_failed = "HE_01"
error_code ApiErrorResponse.payment_method_delete_failed = "IR_25"

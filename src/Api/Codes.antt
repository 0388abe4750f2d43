-- ===== src/Api/Codes.antt =====
-- The codes that the responses carry, beside the codes that the attributes declare.
use mercado.Api.DeclaredCodes.{error_code}
use mercado.Api.Types.{error_response_from, ErrorResponse}
use mercado.Prelude.{Bool, true, false, str_eq, ◌≡◌, not, refl}
use mercado.Api.Switch.{switch, Web}
use mercado.Api.Errors.{ApiErrorResponse}

-- The errors whose response carries another code than the attribute says.
unfoldable pub is_recoded : {Json : Type 0} → ApiErrorResponse Json → Bool
is_recoded ApiErrorResponse.client_secret_expired = true
is_recoded (ApiErrorResponse.not_supported _) = true
is_recoded (ApiErrorResponse.dispute_failed _) = true
is_recoded ApiErrorResponse.resource_busy = true
is_recoded ApiErrorResponse.config_not_found = true
is_recoded ApiErrorResponse.mandate_update_failed = true
is_recoded ApiErrorResponse.mandate_serialization_failed = true
is_recoded ApiErrorResponse.mandate_deserialization_failed = true
is_recoded (ApiErrorResponse.dispute_not_found _) = true
is_recoded ApiErrorResponse.file_not_found = true
is_recoded ApiErrorResponse.file_not_available = true
is_recoded (ApiErrorResponse.dispute_status_validation_failed _) = true
is_recoded ApiErrorResponse.invalid_card_iin = true
is_recoded ApiErrorResponse.invalid_card_iin_length = true
is_recoded (ApiErrorResponse.file_validation_failed _) = true
is_recoded ApiErrorResponse.missing_file = true
is_recoded ApiErrorResponse.missing_dispute_id = true
is_recoded ApiErrorResponse.missing_file_purpose = true
is_recoded ApiErrorResponse.missing_file_content_type = true
is_recoded ApiErrorResponse.webhook_invalid_merchant_secret = true
is_recoded (ApiErrorResponse.currency_not_supported _) = true
is_recoded ApiErrorResponse.currency_conversion_failed = true
is_recoded _ = false

-- The response of an error carries the code that its attribute declares exactly if the error is not one of 22.
pub code-declared :
    {Json : Type 0} (web : Web Json) (e : ApiErrorResponse Json)
    → str_eq (ErrorResponse.code (error_response_from (switch web e))) (error_code e)
      ≡ not (is_recoded e)
unfolding switch error_response_from error_code is_recoded
code-declared web (ApiErrorResponse.not_implemented message) = refl
code-declared web _ = refl

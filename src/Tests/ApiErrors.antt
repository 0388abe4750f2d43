-- ===== src/Tests/ApiErrors.antt =====
-- The codes of a response.
use mercado.Api.DeclaredCodes.{error_code}
use mercado.Api.Errors.{ApiErrorResponse}
use mercado.Api.Types.{ErrorResponse, error_response_from}
use mercado.Prelude.{String, str_eq, some, ◌≡◌, false}
use mercado.Api.Codes.{is_recoded, code-declared}
use mercado.Api.Switch.{Web, switch}

abbrev web : Web String
web = record { json_of = λ names. "names"; from_u16 = some }

code-declared_example :
    str_eq
      (ErrorResponse.code (error_response_from (switch web ApiErrorResponse.resource_busy)))
      (error_code {Json = String} ApiErrorResponse.resource_busy)
    ≡ false
unfolding is_recoded
code-declared_example = code-declared web ApiErrorResponse.resource_busy

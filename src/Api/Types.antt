-- ===== src/Api/Types.antt =====
-- The errors of the HTTP API: crates/api_models/src/errors/types.rs and actix.rs. `Response` is their
-- `ApiErrorResponse`; a status code is its number.
use mercado.Prelude.{
  Option, String, none, ℕ, get_elem?, if◌then◌else◌, some, suc, ltb, ◌/◌, ◌∷◌, [], ◌%◌, zero,
}
use Prim.Native.String.{◌++◌ as str_append}

pub record Extra (Json : Type 0) : Type 0 where
  pub payment_id : Option String
  pub payload : Option Json
  pub connector : Option String
  pub reason : Option String

-- `Extra::default()`
abbrev pub no_extra : {Json : Type 0} → Extra Json
no_extra = record { payment_id = none; payload = none; connector = none; reason = none }

pub record ApiError (Json : Type 0) : Type 0 where
  pub sub_code : String
  pub error_identifier : ℕ
  pub error_message : String
  pub extra : Option (Extra Json)

-- `ApiError::new`
abbrev pub api_error : {Json : Type 0} → String → ℕ → String → Option (Extra Json) → ApiError Json
api_error sub_code error_identifier error_message extra = record {
  sub_code = sub_code;
  error_identifier = error_identifier;
  error_message = error_message;
  extra = extra;
}

pub data Response (Json : Type 0) : Type 0 where
  unauthorized forbidden_common_resource forbidden_private_resource : ApiError Json → Response Json
  conflict gone unprocessable internal_server_error not_implemented : ApiError Json → Response Json
  connector_error : ApiError Json → ℕ → Response Json
  not_found method_not_allowed bad_request domain_error : ApiError Json → Response Json

unfoldable pub get_internal_error : {Json : Type 0} → Response Json → ApiError Json
get_internal_error (Response.unauthorized i) = i
get_internal_error (Response.forbidden_common_resource i) = i
get_internal_error (Response.forbidden_private_resource i) = i
get_internal_error (Response.conflict i) = i
get_internal_error (Response.gone i) = i
get_internal_error (Response.unprocessable i) = i
get_internal_error (Response.internal_server_error i) = i
get_internal_error (Response.not_implemented i) = i
get_internal_error (Response.not_found i) = i
get_internal_error (Response.method_not_allowed i) = i
get_internal_error (Response.bad_request i) = i
get_internal_error (Response.domain_error i) = i
get_internal_error (Response.connector_error i _) = i

unfoldable pub response_error_type : {Json : Type 0} → Response Json → String
response_error_type (Response.internal_server_error i) = "api"
response_error_type (Response.domain_error i) = "blocked"
response_error_type (Response.connector_error i _) = "connector"
response_error_type _ = "invalid_request"

unfoldable pub status_code : {Json : Type 0} → Response Json → ℕ
status_code (Response.unauthorized i) = 401
status_code (Response.forbidden_common_resource i) = 403
status_code (Response.forbidden_private_resource i) = 404
status_code (Response.conflict i) = 409
status_code (Response.gone i) = 410
status_code (Response.unprocessable i) = 422
status_code (Response.internal_server_error i) = 500
status_code (Response.not_implemented i) = 501
status_code (Response.connector_error i code) = code
status_code (Response.method_not_allowed i) = 405
status_code (Response.not_found i) = 404
status_code (Response.bad_request i) = 400
status_code (Response.domain_error i) = 200

or_zero : Option String → String
or_zero (some s) = s
or_zero none = "0"

-- The decimal digits of a `u16`, of which there are at most five.
digit : ℕ → String
digit n = or_zero (get_elem? ("0" ∷ "1" ∷ "2" ∷ "3" ∷ "4" ∷ "5" ∷ "6" ∷ "7" ∷ "8" ∷ "9" ∷ []) n)

decimal_within : ℕ → ℕ → String
decimal_within zero n = ""
decimal_within (suc fuel) n =
    let front = decimal_within fuel (n / 10) in
    if ltb n 10 then digit n else str_append front (digit (n % 10))

-- `{:02}`
two_places : ℕ → String
two_places n = if ltb n 10 then str_append "0" (digit n) else decimal_within 5 n

pub record ErrorResponse (Json : Type 0) : Type 0 where
  pub response_type : String
  pub message : String
  pub code : String
  pub extra : Option (Extra Json)

-- `ErrorResponse::from`
unfoldable pub error_response_from : {Json : Type 0} → Response Json → ErrorResponse Json
unfolding get_internal_error response_error_type two_places digit decimal_within or_zero
error_response_from value =
    let error_info = get_internal_error value in
    record {
      response_type = response_error_type value;
      message = error_info.error_message;
      code =
          str_append error_info.sub_code (str_append "_" (two_places error_info.error_identifier));
      extra = error_info.extra;
    }

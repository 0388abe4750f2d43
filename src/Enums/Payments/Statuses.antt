-- ===== src/Enums/Payments/Statuses.antt =====
-- The statuses of payments of crates/common_enums/src/enums.rs and what they say.
use mercado.Prelude.{Bool, true, false}

pub data AttemptStatus : Type 0 where
  started authentication_failed router_declined authentication_pending : AttemptStatus
  authentication_successful authorized authorization_failed charged : AttemptStatus
  authorizing cod_initiated voided void_initiated : AttemptStatus
  capture_initiated capture_failed void_failed auto_refunded : AttemptStatus
  partial_charged partial_charged_and_chargeable unresolved pending : AttemptStatus
  failure payment_method_awaited confirmation_awaited device_data_collection_pending : AttemptStatus

unfoldable pub is_terminal_status : AttemptStatus → Bool
is_terminal_status AttemptStatus.router_declined = true
is_terminal_status AttemptStatus.charged = true
is_terminal_status AttemptStatus.auto_refunded = true
is_terminal_status AttemptStatus.voided = true
is_terminal_status AttemptStatus.void_failed = true
is_terminal_status AttemptStatus.capture_failed = true
is_terminal_status AttemptStatus.failure = true
is_terminal_status AttemptStatus.partial_charged = true
is_terminal_status AttemptStatus.started = false
is_terminal_status AttemptStatus.authentication_failed = false
is_terminal_status AttemptStatus.authentication_pending = false
is_terminal_status AttemptStatus.authentication_successful = false
is_terminal_status AttemptStatus.authorized = false
is_terminal_status AttemptStatus.authorization_failed = false
is_terminal_status AttemptStatus.authorizing = false
is_terminal_status AttemptStatus.cod_initiated = false
is_terminal_status AttemptStatus.void_initiated = false
is_terminal_status AttemptStatus.capture_initiated = false
is_terminal_status AttemptStatus.partial_charged_and_chargeable = false
is_terminal_status AttemptStatus.unresolved = false
is_terminal_status AttemptStatus.pending = false
is_terminal_status AttemptStatus.payment_method_awaited = false
is_terminal_status AttemptStatus.confirmation_awaited = false
is_terminal_status AttemptStatus.device_data_collection_pending = false

pub data PaymentMethodStatus : Type 0 where
  active inactive processing : PaymentMethodStatus

-- `PaymentMethodStatus::from`
unfoldable pub payment_method_status_from : AttemptStatus → PaymentMethodStatus
payment_method_status_from AttemptStatus.charged = PaymentMethodStatus.active
payment_method_status_from AttemptStatus.authorized = PaymentMethodStatus.active
payment_method_status_from AttemptStatus.failure = PaymentMethodStatus.inactive
payment_method_status_from AttemptStatus.voided = PaymentMethodStatus.processing
payment_method_status_from AttemptStatus.started = PaymentMethodStatus.processing
payment_method_status_from AttemptStatus.pending = PaymentMethodStatus.processing
payment_method_status_from AttemptStatus.unresolved = PaymentMethodStatus.processing
payment_method_status_from AttemptStatus.cod_initiated = PaymentMethodStatus.processing
payment_method_status_from AttemptStatus.authorizing = PaymentMethodStatus.processing
payment_method_status_from AttemptStatus.void_initiated = PaymentMethodStatus.processing
payment_method_status_from AttemptStatus.authorization_failed = PaymentMethodStatus.processing
payment_method_status_from AttemptStatus.router_declined = PaymentMethodStatus.processing
payment_method_status_from AttemptStatus.authentication_successful = PaymentMethodStatus.processing
payment_method_status_from AttemptStatus.payment_method_awaited = PaymentMethodStatus.processing
payment_method_status_from AttemptStatus.authentication_failed = PaymentMethodStatus.processing
payment_method_status_from AttemptStatus.authentication_pending = PaymentMethodStatus.processing
payment_method_status_from AttemptStatus.capture_initiated = PaymentMethodStatus.processing
payment_method_status_from AttemptStatus.capture_failed = PaymentMethodStatus.processing
payment_method_status_from AttemptStatus.void_failed = PaymentMethodStatus.processing
payment_method_status_from AttemptStatus.auto_refunded = PaymentMethodStatus.processing
payment_method_status_from AttemptStatus.partial_charged = PaymentMethodStatus.processing
payment_method_status_from AttemptStatus.partial_charged_and_chargeable =
    PaymentMethodStatus.processing
payment_method_status_from AttemptStatus.confirmation_awaited = PaymentMethodStatus.processing
payment_method_status_from AttemptStatus.device_data_collection_pending =
    PaymentMethodStatus.processing

-- ===== src/Scheduler/Retry/Mapping.antt =====
-- The default mappings of crates/scheduler/src/consumer/types/process_data.rs, and the times that
-- `get_schedule_time` and its siblings read from a mapping.
use mercado.Prelude.{
  List, String, [], ℕ, ◌*◌, str_eq, ◌∷◌, ◌≡◌, get_elem?, replicate, some, ◌++◌, arith, refl, ◌∙◌,
}
use Prim.Native.Nat.{ℕ, suc}
use mercado.Prelude.{zero, suc}
use mercado.Prelude.Int.{ℤ, pos}
use mercado.Scheduler.Retry.{
  RetryMapping, ConnectorPtMapping, OutgoingWebhookRetryProcessTrackerMapping,
  PaymentMethodsPtMapping, get, zip, mapped_time, get_schedule_time,
  get_outgoing_webhook_retry_schedule_time, get_delay, List, String, [],
}
use mercado.Scheduler.Retry.Delays.{get_delay-eq-schedule}

unfoldable pub default_connector_mapping : ConnectorPtMapping
default_connector_mapping = record {
  custom_merchant_mapping = [];
  default_mapping = record { start_after = pos 60; frequency = pos 300 ∷ []; count = pos 5 ∷ [] };
  max_retries_count = pos 5;
}

unfoldable pub default_payment_methods_mapping :
    (PaymentMethod : Type 0) → PaymentMethodsPtMapping PaymentMethod
default_payment_methods_mapping PaymentMethod = record {
  custom_pm_mapping = [];
  default_mapping = record { start_after = pos 900; frequency = pos 300 ∷ []; count = pos 5 ∷ [] };
  max_retries_count = pos 5;
}

unfoldable pub default_webhook_mapping : OutgoingWebhookRetryProcessTrackerMapping
default_webhook_mapping = record {
  default_mapping = record {
    start_after = pos 60;
    frequency = pos (60 * 5) ∷ pos (60 * 10) ∷ pos (60 * 60) ∷ pos (60 * 60 * 6) ∷ [];
    count = pos 2 ∷ pos 5 ∷ pos 5 ∷ pos 3 ∷ [];
  };
  custom_merchant_mapping = [];
}

abbrev webhook_counts : List (ℕ × ℤ)
webhook_counts = (2, pos 300) ∷ (5, pos 600) ∷ (5, pos 3600) ∷ (3, pos 21600) ∷ []

abbrev minutes : ℕ → ℤ
minutes n = pos (60 * n)

-- The delays before the attempts 1 to 16, as the comments of the source give them.
abbrev pub webhook_attempts : List ℤ
webhook_attempts =
    minutes 1 ∷ replicate 2 (minutes 5)
    ++ replicate 5 (minutes 10)
    ++ replicate 5 (minutes 60)
    ++ replicate 3 (minutes 360)

mapped_time_retry :
    (m : RetryMapping) (r : ℕ)
    → mapped_time m (pos (suc r)) ≡ get_delay (pos (suc r)) (zip m.count m.frequency)
unfolding mapped_time
mapped_time_retry m r = ground arith

-- With the default mapping, and for every merchant, the webhook retry number `n` waits as the comments
-- beside the mapping say: one minute, then 2 times 5 minutes, 5 times 10 minutes, 5 times 1 hour and
-- 3 times 6 hours; there is no attempt after these 16.
pub default_webhook_schedule :
    (merchant_name : String) (n : ℕ)
    → get_outgoing_webhook_retry_schedule_time default_webhook_mapping merchant_name (pos n)
      ≡ get_elem? webhook_attempts n
unfolding get_outgoing_webhook_retry_schedule_time default_webhook_mapping
default_webhook_schedule merchant_name zero = refl
default_webhook_schedule merchant_name (suc r) =
    mapped_time_retry default_webhook_mapping.default_mapping r
    ∙ (get_delay-eq-schedule webhook_counts (omega arith)).2 r

-- A merchant's own mapping decides alone: two configurations that agree on what they hold for this
-- merchant give the same time, whatever the default and the other merchants' mappings are.
pub schedule_time-own_mapping :
    (a b : ConnectorPtMapping) (merchant_name : String) (m : RetryMapping) (retry_count : ℤ)
    → get str_eq merchant_name a.custom_merchant_mapping ≡ some m
    → get str_eq merchant_name b.custom_merchant_mapping ≡ some m
    → get_schedule_time a merchant_name retry_count ≡ get_schedule_time b merchant_name retry_count
unfolding get_schedule_time
schedule_time-own_mapping a b merchant_name m retry_count p q = rw (p, q)

-- ===== src/Scheduler/Retry.antt =====
-- Retry delays of the scheduler: `get_delay` and the three `get_*schedule_time` functions of
-- crates/scheduler/src/utils.rs over the mappings of crates/scheduler/src/consumer/types/process_data.rs.
-- A `HashMap` is an association list. `i32` is ℤ; the running total wraps around.
pub mod Delays
pub mod Mapping
use mercado.Prelude.{Bool, ◌&&◌, String, Option, none, some, List, [], ◌∷◌, str_eq, if◌then◌else◌}
use mercado.Prelude.Int.{ℤ, pos, leb_ℤ, add_i32}

pub record RetryMapping : Type 0 where
  pub start_after : ℤ
  pub frequency : List ℤ
  pub count : List ℤ

pub record ConnectorPtMapping : Type 0 where
  pub default_mapping : RetryMapping
  pub custom_merchant_mapping : List (String × RetryMapping)
  pub max_retries_count : ℤ

pub record OutgoingWebhookRetryProcessTrackerMapping : Type 0 where
  pub default_mapping : RetryMapping
  pub custom_merchant_mapping : List (String × RetryMapping)

-- `PaymentMethod` is the key of the source's map; here any type of keys with a test.
pub record PaymentMethodsPtMapping (PaymentMethod : Type 0) : Type 0 where
  pub default_mapping : RetryMapping
  pub custom_pm_mapping : List (PaymentMethod × RetryMapping)
  pub max_retries_count : ℤ

-- `HashMap::get` with the key's own equality test.
unfoldable pub get {ℓ} : {K V : Type ℓ} → (K → K → Bool) → K → List (K × V) → Option V
get eq k [] = none
get eq k ((j, v) ∷ m) = if eq j k then some v else get eq k m

-- `count.iter().zip(frequency.iter())`
unfoldable pub zip : List ℤ → List ℤ → List (ℤ × ℤ)
zip [] fs = []
zip (c ∷ cs) [] = []
zip (c ∷ cs) (f ∷ fs) = (c, f) ∷ zip cs fs

-- The loop of `get_delay`, from the total so far.
unfoldable pub get_delay_from : ℤ → ℤ → List (ℤ × ℤ) → Option ℤ
get_delay_from retry_count cumulative_count [] = none
get_delay_from retry_count cumulative_count ((count, frequency) ∷ array) =
    let total = add_i32 cumulative_count count in
    let rest = get_delay_from retry_count total array in
    if leb_ℤ retry_count total then some frequency else rest

unfoldable pub get_delay : ℤ → List (ℤ × ℤ) → Option ℤ
unfolding get_delay_from
get_delay retry_count array =
    if leb_ℤ retry_count (pos 0) then none else get_delay_from retry_count (pos 0) array

is_zero : ℤ → Bool
is_zero r = leb_ℤ r (pos 0) && leb_ℤ (pos 0) r

-- `Some(map) => map.clone(), None => default_mapping`
unfoldable pub choose : RetryMapping → Option RetryMapping → RetryMapping
choose default_mapping (some m) = m
choose default_mapping none = default_mapping

-- `start_after` for the first try, and after that the delay from the mapping.
unfoldable pub mapped_time : RetryMapping → ℤ → Option ℤ
unfolding is_zero zip get_delay
mapped_time mapping retry_count =
    if is_zero retry_count
    then some mapping.start_after
    else get_delay retry_count (zip mapping.count mapping.frequency)

unfoldable pub get_schedule_time : ConnectorPtMapping → String → ℤ → Option ℤ
unfolding get choose mapped_time
get_schedule_time mapping merchant_name retry_count =
    mapped_time
      (choose mapping.default_mapping (get str_eq merchant_name mapping.custom_merchant_mapping))
      retry_count

unfoldable pub get_outgoing_webhook_retry_schedule_time :
    OutgoingWebhookRetryProcessTrackerMapping → String → ℤ → Option ℤ
unfolding get choose mapped_time
get_outgoing_webhook_retry_schedule_time mapping merchant_name retry_count =
    mapped_time
      (choose mapping.default_mapping (get str_eq merchant_name mapping.custom_merchant_mapping))
      retry_count

unfoldable pub get_pm_schedule_time :
    {PaymentMethod : Type 0}
    → (PaymentMethod → PaymentMethod → Bool)
    → PaymentMethodsPtMapping PaymentMethod
    → PaymentMethod
    → ℤ
    → Option ℤ
unfolding get choose mapped_time
get_pm_schedule_time eq mapping pm retry_count =
    mapped_time (choose mapping.default_mapping (get eq pm mapping.custom_pm_mapping)) retry_count

-- ===== src/Config/Locks.antt =====
-- `LockSettings` as it is read: `deserialize` of crates/router/src/configs/settings.rs. The multiplication is of
-- u32: a build with checks panics where it overflows, another wraps. A panic is `none`.
use mercado.Prelude.{Bool, ℕ, Option, if◌then◌else◌, none, ltb, some, suc, ◌*◌, ◌/◌, zero, ◌%◌}
pub mod Retries
use mercado.Config.Settings.{LockSettings}

infixl 5 ◌>>=◌
abbrev ◌>>=◌ : {A B : Type 0} → Option A → (A → Option B) → Option B
none >>= f = none
some a >>= f = f a

unfoldable pub multiply_u32 : (overflow_checks : Bool) → ℕ → ℕ → Option ℕ
multiply_u32 overflow_checks a b =
    if ltb (a * b) 4294967296
    then some (a * b)
    else if overflow_checks
    then none
    else some (a * b % 4294967296)

unfoldable pub divide_u32 : ℕ → ℕ → Option ℕ
divide_u32 a zero = none
divide_u32 a (suc b) = some (a / suc b)

-- After the two fields of `Inner` were read.
unfoldable pub lock_settings :
    (overflow_checks : Bool)
    → (redis_lock_expiry_seconds delay_between_retries_in_milliseconds : ℕ) → Option LockSettings
lock_settings overflow_checks seconds delay = do
  redis_lock_expiry_milliseconds ← multiply_u32 overflow_checks seconds 1000
  lock_retries ← divide_u32 redis_lock_expiry_milliseconds delay
  some (record {
    redis_lock_expiry_seconds = seconds;
    delay_between_retries_in_milliseconds = delay;
    lock_retries = lock_retries;
  })

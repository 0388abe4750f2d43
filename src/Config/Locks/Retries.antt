-- ===== src/Config/Locks/Retries.antt =====
-- The number of retries for a lock.
use mercado.Config.Checks.Parts.{lock_iff}
use native.Mathlib.Nat.{div-add-mod, mod-lt, zero-lt-suc}
use mercado.Prelude.Results.{ok}
use mercado.Config.Checks.{validate_lock}
use mercado.Prelude.{
  Bool, ℕ, Option, ◌*◌, ◌<◌, ◌≡◌, ◌≤◌, lt→ltb, suc, zero, ◌↔◌, none, refl, arith, ◌+◌, ◌/◌,
}
use mercado.Config.Locks.{lock_settings, multiply_u32, divide_u32, Bool, ℕ, Option, some, suc}
use mercado.Config.Settings.{LockSettings}

-- The retries fit in the time that the lock lives, and one more does not.
abbrev pub Fits : (seconds delay retries : ℕ) → Type 0
Fits seconds delay retries =
    (retries * delay ≤ seconds * 1000) × (seconds * 1000 < suc retries * delay)

-- What is read.
abbrev pub IsLock : (seconds delay : ℕ) → Option LockSettings → Type 0
IsLock seconds delay none = delay ≡ 0
IsLock seconds delay (some s) =
    (s.redis_lock_expiry_seconds ≡ seconds)
    × (s.delay_between_retries_in_milliseconds ≡ delay)
    × Fits seconds delay s.lock_retries
    × ((validate_lock s ≡ ok tt) ↔ ((0 < seconds) × (0 < delay) × (delay ≤ seconds * 1000)))

suc_mul : (q n : ℕ) → suc q * n ≡ n + q * n
suc_mul q n = omega arith

fits : (a d : ℕ) → (a / suc d * suc d ≤ a) × (a < suc (a / suc d) * suc d)
fits a d =
    let whole = div-add-mod a (suc d) in
    let rest = mod-lt a (zero-lt-suc d) in
    (omega (arith, whole), omega (arith, whole, rest, suc_mul (a / suc d) (suc d)))

positive : (a n q : ℕ) → q * n ≤ a → a < suc q * n → (0 < q) ↔ (n ≤ a)
positive a n zero low high = ground (arith, suc_mul 0 n)
positive a n (suc k) low high = ground (arith, suc_mul k n)

-- With an expiry below 2^32 milliseconds, reading the settings of a lock panics exactly if the delay
-- is 0. Else the retries with their delays fit in the expiry and one more does not, and the settings pass the checks
-- exactly if the expiry is not 0 and no shorter than the delay.
pub lock_settings-IsLock :
    (overflow_checks : Bool) (seconds delay : ℕ)
    → seconds * 1000 < 4294967296
    → IsLock seconds delay (lock_settings overflow_checks seconds delay)
unfolding lock_settings multiply_u32 divide_u32
lock_settings-IsLock overflow_checks seconds zero small =
    rw (lt→ltb (seconds * 1000) 4294967296 small) refl
lock_settings-IsLock overflow_checks seconds (suc d) small =
    rw (lt→ltb (seconds * 1000) 4294967296 small) (
      refl,
      refl,
      fits (seconds * 1000) d,
      (
        (λ valid.
            let v = (lock_iff _).0 valid in
            (
              v.0,
              omega arith,
              (positive (seconds * 1000) (suc d) (seconds * 1000 / suc d)
                    (fits (seconds * 1000) d).0 (fits (seconds * 1000) d).1).0
                  v.1.1,
            )),
        (λ v. (lock_iff _).1 (
          v.0,
          (
            omega arith,
            (positive (seconds * 1000) (suc d) (seconds * 1000 / suc d) (fits (seconds * 1000) d).0
                  (fits (seconds * 1000) d).1).1
                v.2,
          ),
        )),
      ),
    )

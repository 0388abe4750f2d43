-- ===== src/Enums/Currency/Units.antt =====
-- The amounts of `impl Currency`, crates/common_enums/src/enums.rs. `f64` and its text are a parameter.
use mercado.Enums.Currency.ThreeDecimal.{is_three_decimal_currency}
use mercado.Enums.Currency.ZeroDecimal.{is_zero_decimal_currency}
use mercado.Prelude.Results.{Result, ◌>>=◌, ok, ok_or, err}
use mercado.Enums.Currency.Types.{Currency}
use mercado.Prelude.Int.{ℤ, pos, negsuc}
use mercado.Prelude.{ℕ, String, if◌then◌else◌, Option, ltb, ◌^◌}

-- What the code uses of f64. `of_ℕ` is `into()` on a u32, and a literal such as 100.00.
pub record Floats (F : Type 0) : Type 0 where
  pub of_ℕ : ℕ → F
  pub div : F → F → F
  pub mul : F → F → F
  -- `format!("{x:.2}")`
  pub two_digits : F → String
  pub to_string : F → String
  pub parse : String → Option F

pub data TryFromIntError : Type 0 where
  try_from_int_error : TryFromIntError

pub data ParseFloatError : Type 0 where
  parse_float_error : ParseFloatError

-- `u32::try_from(amount)`
unfoldable pub u32_try_from : ℤ → Result TryFromIntError ℕ
u32_try_from (pos n) = if ltb n (2 ^ 32) then ok n else err try_from_int_error
u32_try_from (negsuc n) = err try_from_int_error

module _ {F : Type 0} (f64 : Floats F) where
  in_base_unit : Currency → F → F
  in_base_unit c amount =
      if is_zero_decimal_currency c
      then amount
      else if is_three_decimal_currency c
      then f64.div amount (f64.of_ℕ 1000)
      else f64.div amount (f64.of_ℕ 100)

  unfoldable pub to_currency_base_unit_asf64 : Currency → ℤ → Result TryFromIntError F
  unfolding in_base_unit
  to_currency_base_unit_asf64 c amount = do
    n ← u32_try_from amount
    ok (in_base_unit c (f64.of_ℕ n))

  unfoldable pub to_currency_base_unit : Currency → ℤ → Result TryFromIntError String
  to_currency_base_unit c amount = do
    amount_f64 ← to_currency_base_unit_asf64 c amount
    ok (f64.two_digits amount_f64)

  in_lower_unit : Currency → F → F
  in_lower_unit c amount =
      if is_zero_decimal_currency c
      then amount
      else if is_three_decimal_currency c
      then f64.mul amount (f64.of_ℕ 1000)
      else f64.mul amount (f64.of_ℕ 100)

  unfoldable pub to_currency_lower_unit : Currency → String → Result ParseFloatError String
  unfolding in_lower_unit
  to_currency_lower_unit c amount = do
    amount_f64 ← ok_or (f64.parse amount) parse_float_error
    ok (f64.to_string (in_lower_unit c amount_f64))

  unfoldable pub to_currency_base_unit_with_zero_decimal_check :
      Currency → ℤ → Result TryFromIntError String
  to_currency_base_unit_with_zero_decimal_check c amount = do
    amount_f64 ← to_currency_base_unit_asf64 c amount
    (if is_zero_decimal_currency c
        then ok (f64.to_string amount_f64)
        else ok (f64.two_digits amount_f64))

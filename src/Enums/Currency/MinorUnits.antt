-- ===== src/Enums/Currency/MinorUnits.antt =====
-- The minor units of the currencies and the range of the amounts.
use mercado.Prelude.Results.{ok, err}
use mercado.Prelude.Int.{pos, ℤ, leb_ℤ, pos_part, ltb_ℤ, negsuc}
use mercado.Enums.Currency.ThreeDecimal.{is_three_decimal_currency}
use mercado.Enums.Currency.ZeroDecimal.{is_zero_decimal_currency}
use mercado.Enums.Currency.Units.{
  Floats, to_currency_base_unit_asf64, u32_try_from, try_from_int_error,
}
use mercado.Enums.Currency.Iso4217.{iso_4217}
use mercado.Enums.Currency.Types.{Currency}
use mercado.Prelude.{
  List, String, Bool, ℕ, ◌∷◌, ◌≡◌, [], false, if◌then◌else◌, refl, str_eq, ◌||◌, ◌^◌, arith, ◌&&◌,
}

-- ISO 4217, the numbers of the currencies of `Currency` whose minor unit is not a hundredth: those
-- with none, in the order BIF CLP DJF GNF JPY KMF KRW PYG RWF UGX VND VUV XAF XOF XPF, and those
-- with a thousandth, BHD IQD JOD KWD LYD OMR TND.
abbrev pub no_minor_unit : List String
no_minor_unit =
    "108" ∷ "152" ∷ "262" ∷ "324" ∷ "392" ∷ "174" ∷ "410" ∷ "600" ∷ "646" ∷ "800" ∷ "704" ∷ "548"
    ∷ "950" ∷ "952" ∷ "953" ∷ []

abbrev pub thousandths : List String
thousandths = "048" ∷ "368" ∷ "400" ∷ "414" ∷ "434" ∷ "512" ∷ "788" ∷ []

abbrev pub is_in : String → List String → Bool
is_in s [] = false
is_in s (t ∷ ts) = let rest = is_in s ts in str_eq s t || rest

-- The digits after the point that ISO 4217 gives the currency of a number.
abbrev pub minor_units : String → ℕ
minor_units code = if is_in code no_minor_unit then 0 else if is_in code thousandths then 3 else 2

-- What the code divides by: as ISO 4217, but for MGA, 969, with two digits there and none in the code.
abbrev pub divided_digits : String → ℕ
divided_digits code = if str_eq code "969" then 0 else minor_units code

unfoldable decimals : Currency → ℕ
decimals c = if is_zero_decimal_currency c then 0 else if is_three_decimal_currency c then 3 else 2

decimals-eq-divided_digits : (c : Currency) → decimals c ≡ divided_digits (iso_4217 c)
unfolding decimals iso_4217 is_zero_decimal_currency is_three_decimal_currency
decimals-eq-divided_digits Currency.aed = refl
decimals-eq-divided_digits _ = refl

abbrev pub is_u32 : ℤ → Bool
is_u32 amount = leb_ℤ (pos 0) amount && ltb_ℤ amount (pos (2 ^ 32))

-- If dividing by one changes nothing: an amount in minor units is converted exactly if it is a u32,
-- and else it is an error. It is divided by the power of ten that ISO 4217 gives for the currency,
-- but for MGA, which has two digits there and is not divided.
pub to_currency_base_unit_asf64-outcome :
    {F : Type 0} (f64 : Floats F)
    → ((x : F) → f64.div x (f64.of_ℕ 1) ≡ x)
    → (c : Currency) (amount : ℤ)
    → let digits = if str_eq (iso_4217 c) "969" then 0 else minor_units (iso_4217 c) in
      to_currency_base_unit_asf64 f64 c amount ≡ (
        if is_u32 amount
        then ok (f64.div (f64.of_ℕ (pos_part amount)) (f64.of_ℕ (10 ^ digits)))
        else err try_from_int_error)
unfolding to_currency_base_unit_asf64 u32_try_from decimals
to_currency_base_unit_asf64-outcome f64 div-one c (pos n) =
    rw (← decimals-eq-divided_digits c) (ground (arith, div-one (f64.of_ℕ n)))
to_currency_base_unit_asf64-outcome f64 div-one c (negsuc n) = ground arith

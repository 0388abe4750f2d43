-- ===== src/Tests/Currencies.antt =====
-- Amounts of currencies, with floats that are whole numbers.
use mercado.Enums.Currency.MinorUnits.{to_currency_base_unit_asf64-outcome}
use mercado.Prelude.Results.{ok}
use mercado.Prelude.Int.{pos}
use mercado.Enums.Currency.Types.{Currency}
use mercado.Prelude.{ℕ, ◌/◌, ◌*◌, none, ◌≡◌, true, ◌↔◌, arith}
use mercado.Enums.Currency.Iso4217.{iso_4217}
use mercado.Enums.Currency.Codes.{is_three_digits, iso_4217_iff}
use mercado.Enums.Currency.Units.{Floats, to_currency_base_unit_asf64}

-- Whole numbers in place of f64: division is rounded down.
abbrev whole : Floats ℕ
whole = record {
  of_ℕ = λ n. n;
  div = λ a b. a / b;
  mul = λ a b. a * b;
  two_digits = λ n. "two digits";
  to_string = λ n. "text";
  parse = λ s. none;
}

iso_4217_iff_example :
    (is_three_digits (iso_4217 Currency.usd) ≡ true)
    × ((iso_4217 Currency.usd ≡ iso_4217 Currency.eur) ↔ (Currency.usd ≡ Currency.eur))
iso_4217_iff_example = iso_4217_iff Currency.usd Currency.eur

to_currency_base_unit_asf64-outcome_example :
    to_currency_base_unit_asf64 whole Currency.kwd (pos 123456) ≡ ok 123
unfolding iso_4217
to_currency_base_unit_asf64-outcome_example =
    to_currency_base_unit_asf64-outcome whole (λ x. omega arith) Currency.kwd (pos 123456)

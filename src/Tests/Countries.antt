-- ===== src/Tests/Countries.antt =====
-- Instances for crates/common_enums.
use mercado.Prelude.{◌≡◌, ◌↔◌, refl}
use mercado.Prelude.Results.{ok, err}
use mercado.Enums.Country.Types.{Country, CountryAlpha2}
use mercado.Enums.Country.FromAlpha2.{from_alpha2}
use mercado.Enums.Country.AlphaCodes.{from_alpha2_to_alpha3}
use mercado.Enums.Country.ToAlpha3.{to_alpha3}
use mercado.Enums.Country.FromNumeric.{from_numeric, invalid_country_code}
use mercado.Enums.Country.ToNumeric.{to_numeric}
use mercado.Enums.Country.RoundTrip.{alpha_codes_commute, from_numeric_iff}

alpha_codes_commute_example :
    from_alpha2_to_alpha3 CountryAlpha2.nz ≡ to_alpha3 (from_alpha2 CountryAlpha2.nz)
alpha_codes_commute_example = alpha_codes_commute CountryAlpha2.nz

from_numeric_iff_example :
    (from_numeric 554 ≡ ok Country.new_zealand) ↔ (to_numeric Country.new_zealand ≡ 554)
from_numeric_iff_example = from_numeric_iff 554 Country.new_zealand

no_country_5 : from_numeric 5 ≡ err invalid_country_code
unfolding from_numeric
no_country_5 = refl

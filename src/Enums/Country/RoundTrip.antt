-- ===== src/Enums/Country/RoundTrip.antt =====
-- The conversions between countries and their codes undo one another, and fit together.
use mercado.Prelude.{ℕ, ◌==◌, ◌≡◌, refl, ◌↔◌, Bool, true, ◌&&◌, List, [], ◌∷◌, arith}
use mercado.Prelude.Results.{ok}
use mercado.Enums.Country.Types.{Country, CountryAlpha2, CountryAlpha3}
use mercado.Enums.Country.FromAlpha2.{from_alpha2}
use mercado.Enums.Country.ToAlpha2.{to_alpha2}
use mercado.Enums.Country.FromAlpha3.{from_alpha3}
use mercado.Enums.Country.ToAlpha3.{to_alpha3}
use mercado.Enums.Country.AlphaCodes.{from_alpha2_to_alpha3}
use mercado.Enums.Country.FromNumeric.{numeric_arms, first_arm, from_numeric}
use mercado.Enums.Country.ToNumeric.{to_numeric}

from-to_alpha2 : (c : Country) → from_alpha2 (to_alpha2 c) ≡ c
unfolding from_alpha2 to_alpha2
from-to_alpha2 Country.afghanistan = refl
from-to_alpha2 _ = refl

to-from_alpha2 : (k : CountryAlpha2) → to_alpha2 (from_alpha2 k) ≡ k
unfolding from_alpha2 to_alpha2
to-from_alpha2 CountryAlpha2.af = refl
to-from_alpha2 _ = refl

-- `from_alpha2` and `to_alpha2` are inverse to one another, on all countries and on all codes.
pub alpha2_bijection :
    ((c : Country) → from_alpha2 (to_alpha2 c) ≡ c)
    × ((k : CountryAlpha2) → to_alpha2 (from_alpha2 k) ≡ k)
alpha2_bijection = (from-to_alpha2, to-from_alpha2)

from-to_alpha3 : (c : Country) → from_alpha3 (to_alpha3 c) ≡ c
unfolding from_alpha3 to_alpha3
from-to_alpha3 Country.afghanistan = refl
from-to_alpha3 _ = refl

to-from_alpha3 : (k : CountryAlpha3) → to_alpha3 (from_alpha3 k) ≡ k
unfolding from_alpha3 to_alpha3
to-from_alpha3 CountryAlpha3.afg = refl
to-from_alpha3 _ = refl

-- `from_alpha3` and `to_alpha3` are inverse to one another, on all countries and on all codes.
pub alpha3_bijection :
    ((c : Country) → from_alpha3 (to_alpha3 c) ≡ c)
    × ((k : CountryAlpha3) → to_alpha3 (from_alpha3 k) ≡ k)
alpha3_bijection = (from-to_alpha3, to-from_alpha3)

-- The direct table from alpha-2 to alpha-3 codes gives, for every code, the alpha-3 code of the
-- country that the alpha-2 code names.
pub alpha_codes_commute : (k : CountryAlpha2) → from_alpha2_to_alpha3 k ≡ to_alpha3 (from_alpha2 k)
unfolding from_alpha2_to_alpha3 to_alpha3 from_alpha2
alpha_codes_commute CountryAlpha2.af = refl
alpha_codes_commute _ = refl

from-to_numeric : (c : Country) → from_numeric (to_numeric c) ≡ ok c
unfolding from_numeric to_numeric
from-to_numeric Country.afghanistan = refl
from-to_numeric _ = refl

module _ {A : Type 0} (number : A → ℕ) where
  arms_agree : List (ℕ × A) → Bool
  arms_agree [] = true
  arms_agree ((n, a) ∷ arms) = number a == n && arms_agree arms

  number-first_arm :
      (code : ℕ) (a : A) (arms : List (ℕ × A))
      → arms_agree arms ≡ true
      → first_arm code arms ≡ ok a
      → number a ≡ code
  unfolding arms_agree first_arm
  number-first_arm code a [] agree h = ground arith
  number-first_arm code a ((n, b) ∷ arms) agree h = ground (arith, number-first_arm code a arms)

numeric_arms_agree : arms_agree to_numeric numeric_arms ≡ true
unfolding arms_agree to_numeric
numeric_arms_agree = refl

to-from_numeric : (code : ℕ) (c : Country) → from_numeric code ≡ ok c → to_numeric c ≡ code
unfolding from_numeric
to-from_numeric code c h = number-first_arm to_numeric code c numeric_arms numeric_arms_agree h

-- `from_numeric` accepts a number as a country exactly when it is the number that `to_numeric` gives
-- for that country: every country is found, no two share a number, and every other number is an
-- error.
pub from_numeric_iff : (code : ℕ) (c : Country) → (from_numeric code ≡ ok c) ↔ (to_numeric c ≡ code)
from_numeric_iff code c = (to-from_numeric code c, λ e. rw (← e) (from-to_numeric c))

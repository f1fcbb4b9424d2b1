-- ===== src/Core/Countries.antt =====
-- app/core/countries.py: the countries that a profile or a bank account may name.
pub mod Row
mod AToL
mod MToZ
pub mod Codes
use bridge_pay_backend.Common.{List, ◌++◌, map}
use bridge_pay_backend.Common.Text.{Str}
use bridge_pay_backend.Core.Countries.Row.{Country}
use AToL.{countries_to_l}
use MToZ.{countries_from_m}

-- COUNTRIES
unfoldable pub countries : List Country
countries = countries_to_l ++ countries_from_m

-- VALID_COUNTRY_CODES
unfoldable pub valid_country_codes : List Str
unfolding countries
valid_country_codes = map (λ c. c.code) countries

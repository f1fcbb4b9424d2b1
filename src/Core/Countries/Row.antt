-- ===== src/Core/Countries/Row.antt =====
-- app/core/countries.py: a row of the table of countries.
use Prim.Native.String.{String}
use bridge_pay_backend.Common.Text.{Str, codes}

pub record Country : Type 0 where
  pub code : Str
  pub name : Str

abbrev pub country : String → String → Country
country c n = record { code = codes c; name = codes n }

-- ===== src/Core/Countries/Codes.antt =====
-- Proofs about app/core/countries.py: what the codes look like.
use bridge_pay_backend.Common.{
  ℕ, ◌≡◌, refl, arith, Bool, true, false, ◌&&◌, not, List, [], ◌∷◌, leb,
}
use bridge_pay_backend.Common.Text.{Str, str_eq, eq_of_str_eq, contains}
use bridge_pay_backend.Core.Countries.{countries, valid_country_codes}

unfoldable pub is_capital : ℕ → Bool
is_capital c = leb b'A' c && leb c b'Z'

-- Two capital letters.
unfoldable pub is_code : Str → Bool
is_code (a ∷ b ∷ []) = is_capital a && is_capital b
is_code _ = false

unfoldable all_codes : List Str → Bool
all_codes [] = true
all_codes (c ∷ cs) = is_code c && all_codes cs

unfoldable no_repeats : List Str → Bool
no_repeats [] = true
no_repeats (c ∷ cs) = not (contains c cs) && no_repeats cs

codes_are_codes : all_codes valid_country_codes ≡ true
unfolding all_codes valid_country_codes countries is_code is_capital
codes_are_codes = refl

codes_differ : no_repeats valid_country_codes ≡ true
unfolding no_repeats valid_country_codes countries contains str_eq
codes_differ = refl

contains-is_code :
    (c : Str) (cs : List Str) → all_codes cs ≡ true → contains c cs ≡ true → is_code c ≡ true
unfolding all_codes contains
contains-is_code c [] h k = ground arith
contains-is_code c (d ∷ cs) h k = ground (arith, contains-is_code c cs, eq_of_str_eq c d)

pub valid_code-is_code : (c : Str) → contains c valid_country_codes ≡ true → is_code c ≡ true
valid_code-is_code c k = contains-is_code c valid_country_codes codes_are_codes k

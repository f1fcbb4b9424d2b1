-- ===== src/Core/Phone.antt =====
-- The two `normalize_kenyan_phone` functions: app/core/mpesa_client.py (Daraja wants 2547XXXXXXXX) and
-- app/core/airtel_client.py (Airtel wants the nine digits alone).
pub mod Digits
pub mod Format
use bridge_pay_backend.Common.{
  ℕ, zero, suc, Bool, true, false, ◌&&◌, [], ◌∷◌, ◌++◌, ◌==◌, if◌then◌else◌,
}
use bridge_pay_backend.Common.Table.{length}
use bridge_pay_backend.Common.Text.{Str, codes}
use bridge_pay_backend.Core.Phone.Digits.{is_digit}
use bridge_pay_backend.Errors.{Result, ok, err, value_error}

-- `"".join(ch for ch in phone if ch.isdigit())`
unfoldable pub digits_of : Str → Str
digits_of [] = []
digits_of (c ∷ s) = let rest = digits_of s in if is_digit c then c ∷ rest else rest

abbrev pub country_code : Str
country_code = codes "254"

unfoldable pub starts_with : Str → Str → Bool
starts_with s [] = true
starts_with [] (p ∷ ps) = false
starts_with (c ∷ s) (p ∷ ps) = (c == p) && starts_with s ps

-- `s[n:]`
unfoldable pub drop : ℕ → Str → Str
drop zero s = s
drop (suc n) [] = []
drop (suc n) (c ∷ s) = drop n s

-- The digits after the first `if`/`elif` chain of the M-Pesa version.
unfoldable pub expand : Str → Str
unfolding starts_with drop
expand digits =
    if starts_with digits (codes "0") && (length digits == 10)
    then country_code ++ drop 1 digits
    else if starts_with digits country_code && (length digits == 12)
    then digits
    else if length digits == 9
    then country_code ++ digits
    else digits

unfoldable pub normalize_mpesa : Str → Result Str
normalize_mpesa phone =
    let digits = expand (digits_of phone) in
    if starts_with digits country_code && (length digits == 12) then ok digits else err value_error

-- The digits after the chain of the Airtel version.
unfoldable pub strip : Str → Str
unfolding starts_with drop
strip digits =
    if starts_with digits country_code && (length digits == 12)
    then drop 3 digits
    else if starts_with digits (codes "0") && (length digits == 10)
    then drop 1 digits
    else digits

unfoldable pub normalize_airtel : Str → Result Str
normalize_airtel phone =
    let digits = strip (digits_of phone) in
    if length digits == 9 then ok digits else err value_error

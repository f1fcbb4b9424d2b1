-- ===== src/Core/Phone/Format.antt =====
-- Proofs about the two phone normalizers (app/core/mpesa_client.py, app/core/airtel_client.py).
use bridge_pay_backend.Common.{
  ℕ, zero, suc, ◌≡◌, refl, true, ◌&&◌, [], ◌∷◌, ◌++◌, arith, ◌==◌, Bool-cases, inl, inr,
  if◌then◌else◌,
}
use bridge_pay_backend.Common.Table.{length}
use bridge_pay_backend.Common.Text.{Str}
use bridge_pay_backend.Errors.{Result, ok, err, value_error}
use bridge_pay_backend.Core.Phone.Digits.{is_digit}
use bridge_pay_backend.Core.Phone.{
  digits_of, country_code, starts_with, drop, expand, strip, normalize_mpesa, normalize_airtel,
}

abbrev pub AllDigits : Str → Type 0
AllDigits [] = Unit
AllDigits (c ∷ s) = (is_digit c ≡ true) × AllDigits s

pub AllDigits-digits_of : (s : Str) → AllDigits (digits_of s)
unfolding digits_of
AllDigits-digits_of [] = tt
AllDigits-digits_of (c ∷ s) = elim (Bool-cases (is_digit c)) [
  | inl d ↦ rw (d, digits_of) (d, AllDigits-digits_of s)
  | inr n ↦ rw (n, digits_of) (AllDigits-digits_of s)
]

abbrev pub with_country_code : Result Str → Result Str
with_country_code (ok digits) = ok (country_code ++ digits)
with_country_code (err e) = err e

-- The two providers' normalizers accept the same numbers, and M-Pesa's answer is Airtel's behind 254.
pub normalize_agree :
    (phone : Str) → normalize_mpesa phone ≡ with_country_code (normalize_airtel phone)
unfolding normalize_mpesa normalize_airtel expand strip
normalize_agree phone = ground arith

AllDigits-drop : (n : ℕ) (s : Str) → AllDigits s → AllDigits (drop n s)
unfolding drop
AllDigits-drop zero s h = h
AllDigits-drop (suc n) [] h = h
AllDigits-drop (suc n) (c ∷ s) h = AllDigits-drop n s h.1

AllDigits-country_code : (s : Str) → AllDigits s → AllDigits (country_code ++ s)
unfolding is_digit
AllDigits-country_code s h = (refl, (refl, (refl, h)))

digits_of_digits : (s : Str) → AllDigits s → digits_of s ≡ s
unfolding digits_of
digits_of_digits [] h = refl
digits_of_digits (c ∷ s) h = rw (h.0, digits_of) (cc (digits_of_digits s h.1))

AllDigits-expand : (s : Str) → AllDigits s → AllDigits (expand s)
unfolding expand
AllDigits-expand s h =
    ground (arith, AllDigits-drop 1 s, AllDigits-country_code s, AllDigits-country_code (drop 1 s))

-- A number in Daraja's format is left as it is.
expand_formatted : (s : Str) → starts_with s country_code ≡ true → length s ≡ 12 → expand s ≡ s
unfolding expand
expand_formatted [] p n = ground arith
expand_formatted (c ∷ s) p n = ground arith

accepted :
    (e d : Str)
    → (if starts_with e country_code && (length e == 12) then ok e else err value_error) ≡ ok d
    → (e ≡ d) × (starts_with e country_code ≡ true) × (length e ≡ 12)
accepted e d h = ground arith

formatted :
    (d : Str)
    → AllDigits d
    → starts_with d country_code ≡ true
    → length d ≡ 12
    → normalize_mpesa d ≡ ok d
unfolding normalize_mpesa
formatted d a p n = rw (digits_of_digits d a) (rw (expand_formatted d p n) (rw p (ground arith)))

-- What M-Pesa's normalizer accepts it gives as twelve characters that `str.isdigit` calls digits, of any script, the
-- first three of which are 254, and a second normalization changes nothing.
pub normalize_mpesa_format :
    (phone d : Str)
    → normalize_mpesa phone ≡ ok d
    → (length d ≡ 12)
      × (starts_with d country_code ≡ true)
      × AllDigits d
      × (normalize_mpesa d ≡ ok d)
unfolding normalize_mpesa
normalize_mpesa_format phone d h =
    let facts = accepted (expand (digits_of phone)) d h in
    let a : AllDigits d =
      rw facts.0 at (AllDigits-expand (digits_of phone) (AllDigits-digits_of phone)) in
    let p : starts_with d country_code ≡ true = rw facts.0 at facts.1 in
    let n : length d ≡ 12 = rw facts.0 at facts.2 in (n, p, a, formatted d a p n)

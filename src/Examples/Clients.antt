-- ===== src/Examples/Clients.antt =====
-- Runs of access tokens, of the providers' clients and of the request schemas.
use bridge_pay_backend.Common.{
  ℕ, zero, suc, ◌≡◌, ◌↔◌, ◌*◌, ◌+◌, ◌^◌, ◌%◌, ◌≤◌, ◌<◌, ◌&&◌, refl, arith, Option, none, some, [],
  ◌∷◌, ltb, leb, if◌then◌else◌,
}
use bridge_pay_backend.Common.Int.{pos}
use bridge_pay_backend.Common.Text.{Str, codes, length, str_eq, is_space, stripped}
use bridge_pay_backend.Core.Security.{
  Claims, Jwt, IsSigned, bearer, create_access_token, bearer-create_access_token,
}
use bridge_pay_backend.Core.Settings.{default_settings}
use bridge_pay_backend.Errors.{ok}
use bridge_pay_backend.Json.{Json, str, num, obj, end, is_truthy, get_item, get_or, field_or}
use bridge_pay_backend.Providers.{answered}
use bridge_pay_backend.Providers.Amounts.{asked_amounts, amount_of, transaction_amount_of}
use bridge_pay_backend.Providers.Mpesa.{text_field, b2c_payload, stk_payload}
use bridge_pay_backend.Providers.Airtel.{disbursement_payload, collection_payload}
use bridge_pay_backend.Providers.Stripe.{intent_request, card_request, bank_request}
use bridge_pay_backend.Providers.Tokens.{
  is_ascii_digit, int_of, signed_number, number_from, Network, get_access_token, keep_token,
  read_token,
}
use bridge_pay_backend.Providers.Tokens.Reuse.{get_access_token_reused}
use bridge_pay_backend.Requests.{Pydantic, KeepsLimits}
use bridge_pay_backend.Requests.Accepted.{
  Accepts, IsAmount, FitsColumn, IsCountry, IsOptionalCountry, money_bodies_accepted,
  people_bodies_accepted,
}
use bridge_pay_backend.Requests.Money.{
  transfer_create, mobile_payout_create, card_payout_create, bank_payout_create,
  stripe_deposit_create, mobile_deposit_create,
}
use bridge_pay_backend.Requests.People.{
  user_create, update_profile_request, change_password_request, password_reset_confirm_schema,
}

-- A token is when it expires, whether it names a subject, and the subject.
abbrev token_of : Claims → Str
token_of c = elim c.sub [ none ↦ c.exp ∷ 0 ∷ [] | some s ↦ c.exp ∷ 1 ∷ s ]

abbrev in_time : ℕ → ℕ → Option Str → Option Claims
in_time now expires sub =
    if leb now expires then some (record { sub = sub; exp = expires }) else none

abbrev claims_of : ℕ → Str → Option Claims
claims_of now [] = none
claims_of now (e ∷ []) = none
claims_of now (e ∷ zero ∷ s) = in_time now e none
claims_of now (e ∷ suc n ∷ s) = in_time now e (some s)

-- The text of an id is the id.
abbrev id_of : Str → Option ℕ
id_of (n ∷ []) = some n
id_of _ = none

abbrev jwt : Jwt
jwt = record {
  encode = λ c key algorithm. token_of c;
  decode = λ now token key algorithms. claims_of now token;
  uuid = id_of;
}

in_time-kept : (now : ℕ) (c : Claims) → now ≤ c.exp → claims_of now (token_of c) ≡ some c
in_time-kept now c h =
    elim c.sub
      as (λ b. claims_of now (token_of (record c { sub = b })) ≡ some (record c { sub = b })) [
        | none ↦ ground arith
        | some s ↦ ground arith
      ]

in_time-over : (now : ℕ) (c : Claims) → c.exp < now → claims_of now (token_of c) ≡ none
in_time-over now c h = elim c.sub as (λ b. claims_of now (token_of (record c { sub = b })) ≡ none) [
  | none ↦ ground arith
  | some s ↦ ground arith
]

jwt-IsSigned : IsSigned jwt
jwt-IsSigned = record {
  read_in_time = λ now c key algorithm h. in_time-kept now c h;
  expired = λ now c key algorithm h. in_time-over now c h;
}

bearer-create_access_token_example :
    bearer jwt default_settings 2800 (create_access_token jwt default_settings 1000 (7 ∷ []) none)
    ≡ some 7
bearer-create_access_token_example =
    bearer-create_access_token jwt default_settings (λ n. n ∷ []) 7 1000 2800 jwt-IsSigned refl

-- A server that gives a token for an hour.
abbrev hour_token : Json
hour_token = obj (
    text_field (codes "access_token") (codes "t")
      (text_field (codes "expires_in") (codes "3599") end))

abbrev net : Network
net = record {
  send = λ request. answered 200 [] (some hour_token);
  base64 = λ s. s;
  encrypt = λ path s. ok s;
  text_of = λ v. codes "t";
}

get_access_token_reused_example :
    let (first, cache') = get_access_token 1000 (answered 200 [] (some hour_token)) none in
    (first ≡ ok (str (codes "t")))
    × (get_access_token 4538 (answered 500 [] none) cache' ≡ (
        if ltb (4538 + 60) (1000 + 3599)
        then (ok (str (codes "t")), cache')
        else keep_token cache' (read_token 4538 (answered 500 [] none))))
unfolding get_item str_eq get_or field_or int_of signed_number number_from stripped is_space
    is_ascii_digit is_truthy
get_access_token_reused_example =
    get_access_token_reused 1000 4538 200 3599 [] hour_token (str (codes "t")) (str (codes "3599"))
      none (answered 500 [] none) refl refl refl refl refl tt

asked_amounts_example :
    (w : ℕ) × (amount_of (b2c_payload net default_settings [] [] 1050) ≡ num (pos w))
    × (amount_of (stk_payload net default_settings [] [] [] 1050) ≡ num (pos w))
    × (transaction_amount_of (disbursement_payload net default_settings [] [] [] 1050)
        ≡ num (pos w))
    × (transaction_amount_of (collection_payload net default_settings [] [] 1050) ≡ num (pos w))
    × (w * 100 ≤ 1050)
    × (1050 < w * 100 + 100)
    × ((w * 100 ≡ 1050) ↔ (1050 % 100 ≡ 0))
    × ((intent_request (λ n. n ∷ []) 1 2 1050 (codes "usd") []).amount ≡ 1050)
    × ((card_request 1050 (codes "usd") []).amount ≡ 1050)
    × ((bank_request 1050 (codes "usd") []).amount ≡ 1050)
asked_amounts_example =
    asked_amounts net default_settings (λ n. n ∷ []) [] [] [] [] [] [] 1050 1 2 (codes "usd") [] []

-- A text is within its limits; an amount is its first code point, where that is within the limits.
abbrev number_of : Str → ℕ
number_of [] = 0
number_of (n ∷ s) = n

abbrev pydantic : Pydantic
pydantic = record {
  is_text = λ f s. leb f.min_length (length s) && leb (length s) f.max_length;
  decimal = λ f s.
      if ltb (f.gt * 10 ^ f.decimal_places) (number_of s) && ltb (number_of s) (10 ^ f.max_digits)
      then some (number_of s)
      else none;
  email = λ s. some s;
}

number-above :
    (a b n m : ℕ) → (if ltb a n && ltb n b then some n else none) ≡ some m → (a < m) × (m < b)
number-above a b n m h = (ground arith, ground arith)

pydantic-KeepsLimits : KeepsLimits pydantic
pydantic-KeepsLimits = record {
  text_length = λ f s. refl;
  above = λ f s n h.
      (number-above (f.gt * 10 ^ f.decimal_places) (10 ^ f.max_digits) (number_of s) n h).0;
  below = λ f s n h.
      (number-above (f.gt * 10 ^ f.decimal_places) (10 ^ f.max_digits) (number_of s) n h).1;
}

money_bodies_accepted_example :
    Accepts
      (λ r. IsAmount r.amount × FitsColumn 255 r.reference_note)
      (transfer_create pydantic (codes "b") (1050 ∷ []) (some (codes "rent")))
    × Accepts
        (λ r. IsAmount r.amount × FitsColumn 255 r.idempotency_key)
        (mobile_payout_create pydantic (codes "0712345678") (codes "b") (1050 ∷ []) none)
    × Accepts
        (λ r. IsAmount r.amount × (length r.currency ≡ 3) × FitsColumn 255 r.idempotency_key)
        (card_payout_create pydantic (codes "tok") (codes "b") (1050 ∷ []) (codes "usd") none)
    × Accepts
        (λ r. IsAmount r.amount × (length r.currency ≡ 3) × FitsColumn 255 r.idempotency_key)
        (bank_payout_create pydantic
          (codes "tok")
          (codes "KE")
          (codes "b")
          (1050 ∷ [])
          (codes "usd")
          none)
    × Accepts
        (λ r. IsAmount r.amount × (length r.currency ≡ 3) × FitsColumn 255 r.idempotency_key)
        (stripe_deposit_create pydantic (1050 ∷ []) (codes "usd") none)
    × Accepts
        (λ r. IsAmount r.amount × FitsColumn 255 r.idempotency_key)
        (mobile_deposit_create pydantic (codes "0712345678") (1050 ∷ []) none)
money_bodies_accepted_example =
    money_bodies_accepted pydantic pydantic-KeepsLimits (codes "b") (1050 ∷ [])
      (some (codes "rent")) (codes "0712345678") (codes "tok") (codes "b") (codes "KE")
      (codes "usd") none

people_bodies_accepted_example :
    Accepts
      (λ r.
        ((8 ≤ length r.password) × (length r.password ≤ 128))
        × ((1 ≤ length r.full_name) × (length r.full_name ≤ 255))
        × IsCountry r.country)
      (user_create pydantic (codes "b") (codes "password") (codes "Bob") (codes "ke"))
    × Accepts
        (λ r.
          (FitsColumn 255 r.full_name × ¬ (r.full_name ≡ some [])) × IsOptionalCountry r.country)
        (update_profile_request pydantic none none (some (codes "ug")))
    × Accepts
        (λ r. (8 ≤ length r.new_password) × (length r.new_password ≤ 128))
        (change_password_request pydantic (codes "old") (codes "password"))
    × Accepts
        (λ r. (8 ≤ length r.new_password) × (length r.new_password ≤ 128))
        (password_reset_confirm_schema pydantic (codes "t") (codes "password"))
people_bodies_accepted_example =
    people_bodies_accepted pydantic pydantic-KeepsLimits (codes "b") (codes "password")
      (codes "Bob") (codes "ke") none none (some (codes "ug")) (codes "old") (codes "t")

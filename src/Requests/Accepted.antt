-- ===== src/Requests/Accepted.antt =====
-- Proofs about the schemas: what a route may rely on in a body that was accepted.
use bridge_pay_backend.Common.{
  ℕ, ◌≡◌, ◌≤◌, ◌<◌, ◌^◌, refl, arith, true, [], ◌∷◌, Option, none, some, inl, inr, Bool-cases,
}
use bridge_pay_backend.Common.Text.{Str, length, upper, upper_idem, contains}
use bridge_pay_backend.Core.Countries.{valid_country_codes}
use bridge_pay_backend.Core.Countries.Codes.{is_code, valid_code-is_code}
use bridge_pay_backend.Errors.{Result, ok, err, ◌>>=◌}
use bridge_pay_backend.Requests.{
  Pydantic, KeepsLimits, TextField, check_text, check_optional, check_decimal,
}
use bridge_pay_backend.Requests.Money.{
  transfer_create, mobile_payout_create, card_payout_create, bank_payout_create,
  stripe_deposit_create, mobile_deposit_create, key_field, currency_field, amount_field,
}
use bridge_pay_backend.Requests.People.{
  user_create, update_profile_request, change_password_request, password_reset_confirm_schema,
  validate_country, validate_optional_country, password_field, name_field,
}

-- What is accepted has the property.
abbrev pub Accepts : {A : Type 0} → (A → Type 0) → Result A → Type 0
Accepts P (ok a) = P a
Accepts P (err e) = Unit

Accepts-bind :
    {A B : Type 0} (P : A → Type 0) (Q : B → Type 0) (m : Result A) (f : A → Result B)
    → Accepts P m
    → ((a : A) → P a → Accepts Q (f a))
    → Accepts Q (m >>= f)
Accepts-bind P Q (ok a) f h k = k a h
Accepts-bind P Q (err e) f h k = tt

-- What an action gives where nothing is asked of the value before.
skip :
    {A B : Type 0} (Q : B → Type 0) (m : Result A) (f : A → Result B)
    → ((a : A) → Accepts Q (f a))
    → Accepts Q (m >>= f)
skip Q (ok a) f k = k a
skip Q (err e) f k = tt

abbrev IsWithin : TextField → Str → Type 0
IsWithin f s = (f.min_length ≤ length s) × (length s ≤ f.max_length)

abbrev IsWithinOptional : TextField → Option Str → Type 0
IsWithinOptional f none = Unit
IsWithinOptional f (some s) = IsWithin f s

-- A String(n) column holds a text of at most n characters.
abbrev pub FitsColumn : ℕ → Option Str → Type 0
FitsColumn n none = Unit
FitsColumn n (some s) = length s ≤ n

FitsColumn-key : (key : Option Str) → IsWithinOptional key_field key → FitsColumn 255 key
FitsColumn-key none h = tt
FitsColumn-key (some s) h = h.1

FitsColumn-name :
    (name : Option Str)
    → IsWithinOptional name_field name
    → FitsColumn 255 name × ¬ (name ≡ some [])
FitsColumn-name none h = (tt, λ e. cc)
FitsColumn-name (some []) h = (h.1, λ e. omega (arith, h.0))
FitsColumn-name (some (c ∷ s)) h = (h.1, λ e. cc)

-- More than nothing, and no more than a Numeric(18, 2) column holds.
abbrev pub IsAmount : ℕ → Type 0
IsAmount n = (0 < n) × (n < 10 ^ 18)

-- A country of the list, as two capital letters.
abbrev pub IsCountry : Str → Type 0
IsCountry c = (is_code c ≡ true) × (validate_country c ≡ ok c)

abbrev pub IsOptionalCountry : Option Str → Type 0
IsOptionalCountry none = Unit
IsOptionalCountry (some c) = IsCountry c

validate_country-IsCountry : (v : Str) → Accepts IsCountry (validate_country v)
unfolding validate_country
validate_country-IsCountry v = elim (Bool-cases (contains (upper v) valid_country_codes)) [
  | inl e ↦ rw e (valid_code-is_code (upper v) e, rw (upper_idem v, e) refl)
  | inr e ↦ rw e tt
]

validate_optional_country-IsCountry :
    (v : Option Str) → Accepts IsOptionalCountry (validate_optional_country v)
unfolding validate_optional_country
validate_optional_country-IsCountry none = tt
validate_optional_country-IsCountry (some v) =
    Accepts-bind _ IsOptionalCountry (validate_country v) _ (validate_country-IsCountry v) λ c h. h

then_country :
    {B : Type 0} (v : Str) (Q : B → Type 0) (f : Str → Result B)
    → ((c : Str) → IsCountry c → Accepts Q (f c))
    → Accepts Q (validate_country v >>= f)
then_country v Q f k = Accepts-bind _ Q _ f (validate_country-IsCountry v) k

then_optional_country :
    {B : Type 0} (v : Option Str) (Q : B → Type 0) (f : Option Str → Result B)
    → ((c : Option Str) → IsOptionalCountry c → Accepts Q (f c))
    → Accepts Q (validate_optional_country v >>= f)
then_optional_country v Q f k = Accepts-bind _ Q _ f (validate_optional_country-IsCountry v) k

module _ (p : Pydantic) (limits : KeepsLimits p) where
  check_text-IsWithin : (f : TextField) (s : Str) → Accepts (IsWithin f) (check_text p f s)
  unfolding check_text
  check_text-IsWithin f s = elim (Bool-cases (p.is_text f s)) [
    | inl e ↦ let k = limits.text_length f s in rw e (ground arith, ground arith)
    | inr e ↦ rw e tt
  ]

  check_optional-IsWithin :
      (f : TextField) (s : Option Str) → Accepts (IsWithinOptional f) (check_optional p f s)
  unfolding check_optional
  check_optional-IsWithin f none = tt
  check_optional-IsWithin f (some s) = elim (Bool-cases (p.is_text f s)) [
    | inl e ↦ let k = limits.text_length f s in rw e (ground arith, ground arith)
    | inr e ↦ rw e tt
  ]

  check_decimal-IsAmount : (s : Str) → Accepts IsAmount (check_decimal p amount_field s)
  unfolding check_decimal
  check_decimal-IsAmount s = of_read (p.decimal amount_field s) refl
    where
      of_read :
          (r : Option ℕ)
          → p.decimal amount_field s ≡ r
          → Accepts IsAmount (check_decimal p amount_field s)
      of_read none e = rw e tt
      of_read (some n) e = rw e (limits.above amount_field s n e, limits.below amount_field s n e)

  then_optional :
      {B : Type 0} (g : TextField) (s : Option Str) (Q : B → Type 0) (f : Option Str → Result B)
      → ((c : Option Str) → IsWithinOptional g c → Accepts Q (f c))
      → Accepts Q (check_optional p g s >>= f)
  then_optional g s Q f k = Accepts-bind _ Q _ f (check_optional-IsWithin g s) k

  then_amount :
      {B : Type 0} (s : Str) (Q : B → Type 0) (f : ℕ → Result B)
      → ((n : ℕ) → IsAmount n → Accepts Q (f n))
      → Accepts Q (check_decimal p amount_field s >>= f)
  then_amount s Q f k = Accepts-bind _ Q _ f (check_decimal-IsAmount s) k

  then_text :
      {B : Type 0} (g : TextField) (s : Str) (Q : B → Type 0) (f : Str → Result B)
      → ((c : Str) → IsWithin g c → Accepts Q (f c))
      → Accepts Q (check_text p g s >>= f)
  then_text g s Q f k = Accepts-bind _ Q _ f (check_text-IsWithin g s) k

  then_key :
      {B : Type 0} (key : Option Str) (Q : B → Type 0) (f : Option Str → Result B)
      → ((c : Option Str) → FitsColumn 255 c → Accepts Q (f c))
      → Accepts Q (check_optional p key_field key >>= f)
  then_key key Q f k = then_optional key_field key Q f (λ c h. k c (FitsColumn-key c h))

  then_currency :
      {B : Type 0} (currency : Str) (Q : B → Type 0) (f : Str → Result B)
      → ((c : Str) → length c ≡ 3 → Accepts Q (f c))
      → Accepts Q (check_text p currency_field currency >>= f)
  then_currency currency Q f k =
      then_text currency_field currency Q f (λ c h. k c (omega (arith, h)))

  then_name :
      {B : Type 0} (name : Option Str) (Q : B → Type 0) (f : Option Str → Result B)
      → ((c : Option Str) → FitsColumn 255 c × ¬ (c ≡ some []) → Accepts Q (f c))
      → Accepts Q (check_optional p name_field name >>= f)
  then_name name Q f k = then_optional name_field name Q f (λ c h. k c (FitsColumn-name c h))

  then_full_name :
      {B : Type 0} (name : Str) (Q : B → Type 0) (f : Str → Result B)
      → ((c : Str) → (1 ≤ length c) × (length c ≤ 255) → Accepts Q (f c))
      → Accepts Q (check_text p name_field name >>= f)
  then_full_name name Q f k = then_text name_field name Q f k

  then_password :
      {B : Type 0} (password : Str) (Q : B → Type 0) (f : Str → Result B)
      → ((c : Str) → (8 ≤ length c) × (length c ≤ 128) → Accepts Q (f c))
      → Accepts Q (check_text p password_field password >>= f)
  then_password password Q f k = then_text password_field password Q f k

  ruleset accepted = (
    then_amount, then_key, then_currency, then_name, then_full_name, then_password, then_country,
    then_optional_country, skip,
  )

  -- What the routes that move money may rely on in an accepted body: the amount is above nothing and fits the
  -- Numeric(18, 2) columns, the reference note or idempotency key fits its String(255) column, and a currency,
  -- where the body names one, has three characters, which is what its String(3) column holds.
  pub money_bodies_accepted :
      (to_email amount : Str) (why : Option Str) (phone token email country currency : Str)
      (key : Option Str)
      → Accepts
          (λ r. IsAmount r.amount × FitsColumn 255 r.reference_note)
          (transfer_create p to_email amount why)
        × Accepts
            (λ r. IsAmount r.amount × FitsColumn 255 r.idempotency_key)
            (mobile_payout_create p phone email amount key)
        × Accepts
            (λ r. IsAmount r.amount × (length r.currency ≡ 3) × FitsColumn 255 r.idempotency_key)
            (card_payout_create p token email amount currency key)
        × Accepts
            (λ r. IsAmount r.amount × (length r.currency ≡ 3) × FitsColumn 255 r.idempotency_key)
            (bank_payout_create p token country email amount currency key)
        × Accepts
            (λ r. IsAmount r.amount × (length r.currency ≡ 3) × FitsColumn 255 r.idempotency_key)
            (stripe_deposit_create p amount currency key)
        × Accepts
            (λ r. IsAmount r.amount × FitsColumn 255 r.idempotency_key)
            (mobile_deposit_create p phone amount key)
  unfolding transfer_create mobile_payout_create card_payout_create bank_payout_create
      stripe_deposit_create mobile_deposit_create
  money_bodies_accepted to_email amount why phone token email country currency key = (
    search accepted depth 8,
    search accepted depth 8,
    search accepted depth 8,
    search accepted depth 8,
    search accepted depth 8,
    search accepted depth 8,
  )

  -- What the people's routes may rely on in an accepted body: a new password has 8 to 128 characters; a name is not
  -- empty and fits its String(255) column; and a country is one of the list by two capital letters, which the check
  -- would accept again as they are.
  pub people_bodies_accepted :
      (email password name country : Str) (name' email' country' : Option Str) (current token : Str)
      → Accepts
          (λ r.
            ((8 ≤ length r.password) × (length r.password ≤ 128))
            × ((1 ≤ length r.full_name) × (length r.full_name ≤ 255))
            × IsCountry r.country)
          (user_create p email password name country)
        × Accepts
            (λ r.
              (FitsColumn 255 r.full_name × ¬ (r.full_name ≡ some []))
              × IsOptionalCountry r.country)
            (update_profile_request p name' email' country')
        × Accepts
            (λ r. (8 ≤ length r.new_password) × (length r.new_password ≤ 128))
            (change_password_request p current password)
        × Accepts
            (λ r. (8 ≤ length r.new_password) × (length r.new_password ≤ 128))
            (password_reset_confirm_schema p token password)
  unfolding user_create update_profile_request change_password_request password_reset_confirm_schema
  people_bodies_accepted email password name country name' email' country' current token = (
    search accepted depth 8,
    search accepted depth 8,
    search accepted depth 8,
    search accepted depth 8,
  )

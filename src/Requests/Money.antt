-- ===== src/Requests/Money.antt =====
-- app/modules/transfers/schemas.py, payouts/schemas.py and deposits/schemas.py: the requests that move money.
-- Amounts are in cents behind the check.
use bridge_pay_backend.Common.{ℕ, Option}
use bridge_pay_backend.Common.Text.{Str}
use bridge_pay_backend.Errors.{Result, ok, ◌>>=◌}
use bridge_pay_backend.Requests.{
  TextField, DecimalField, Pydantic, check_text, check_optional, check_decimal, check_email,
}

abbrev pub amount_field : DecimalField
amount_field = record { gt = 0; max_digits = 18; decimal_places = 2 }

abbrev pub currency_field : TextField
currency_field = record { min_length = 3; max_length = 3 }

-- `idempotency_key` and `reference_note`
abbrev pub key_field : TextField
key_field = record { min_length = 0; max_length = 255 }

abbrev pub country_field : TextField
country_field = record { min_length = 2; max_length = 2 }

pub record TransferCreate : Type 0 where
  pub to_email : Str
  pub amount : ℕ
  pub reference_note : Option Str

-- MpesaPayoutCreate and AirtelPayoutCreate
pub record MobilePayoutCreate : Type 0 where
  pub phone_number : Str
  pub recipient_email : Str
  pub amount : ℕ
  pub idempotency_key : Option Str

pub record StripeCardPayoutCreate : Type 0 where
  pub card_token : Str
  pub recipient_email : Str
  pub amount : ℕ
  pub currency : Str
  pub idempotency_key : Option Str

pub record BankAccountPayoutCreate : Type 0 where
  pub bank_account_token : Str
  pub country : Str
  pub recipient_email : Str
  pub amount : ℕ
  pub currency : Str
  pub idempotency_key : Option Str

pub record StripeDepositCreate : Type 0 where
  pub amount : ℕ
  pub currency : Str
  pub idempotency_key : Option Str

-- MpesaDepositCreate and AirtelDepositCreate
pub record MobileDepositCreate : Type 0 where
  pub phone_number : Str
  pub amount : ℕ
  pub idempotency_key : Option Str

module _ (p : Pydantic) where
  unfoldable pub transfer_create : Str → Str → Option Str → Result TransferCreate
  transfer_create to_email amount reference_note = do
    email ← check_email p to_email
    cents ← check_decimal p amount_field amount
    why ← check_optional p key_field reference_note
    ok (record { to_email = email; amount = cents; reference_note = why })

  unfoldable pub mobile_payout_create : Str → Str → Str → Option Str → Result MobilePayoutCreate
  mobile_payout_create phone_number recipient_email amount idempotency_key = do
    email ← check_email p recipient_email
    cents ← check_decimal p amount_field amount
    key ← check_optional p key_field idempotency_key
    ok (record {
      phone_number = phone_number;
      recipient_email = email;
      amount = cents;
      idempotency_key = key;
    })

  unfoldable pub card_payout_create :
      Str → Str → Str → Str → Option Str → Result StripeCardPayoutCreate
  card_payout_create card_token recipient_email amount currency idempotency_key = do
    email ← check_email p recipient_email
    cents ← check_decimal p amount_field amount
    code ← check_text p currency_field currency
    key ← check_optional p key_field idempotency_key
    ok (record {
      card_token = card_token;
      recipient_email = email;
      amount = cents;
      currency = code;
      idempotency_key = key;
    })

  unfoldable pub bank_payout_create :
      Str → Str → Str → Str → Str → Option Str → Result BankAccountPayoutCreate
  bank_payout_create bank_account_token country recipient_email amount currency idempotency_key = do
    where_to ← check_text p country_field country
    email ← check_email p recipient_email
    cents ← check_decimal p amount_field amount
    code ← check_text p currency_field currency
    key ← check_optional p key_field idempotency_key
    ok (record {
      bank_account_token = bank_account_token;
      country = where_to;
      recipient_email = email;
      amount = cents;
      currency = code;
      idempotency_key = key;
    })

  unfoldable pub stripe_deposit_create : Str → Str → Option Str → Result StripeDepositCreate
  stripe_deposit_create amount currency idempotency_key = do
    cents ← check_decimal p amount_field amount
    code ← check_text p currency_field currency
    key ← check_optional p key_field idempotency_key
    ok (record { amount = cents; currency = code; idempotency_key = key })

  unfoldable pub mobile_deposit_create : Str → Str → Option Str → Result MobileDepositCreate
  mobile_deposit_create phone_number amount idempotency_key = do
    cents ← check_decimal p amount_field amount
    key ← check_optional p key_field idempotency_key
    ok (record { phone_number = phone_number; amount = cents; idempotency_key = key })

-- ===== src/Providers/Stripe.antt =====
-- The requests that payouts/service.py and deposits/service.py make of the Stripe library
-- (app/core/stripe_client.py).
use bridge_pay_backend.Common.{ℕ, ◌+◌, ◌/◌}
use bridge_pay_backend.Common.Text.{Str, codes, lower}
use bridge_pay_backend.Schema.{Decimal, of_cents, cent}

-- The arguments of `stripe.PaymentIntent.create`
pub record IntentRequest : Type 0 where
  pub amount : ℕ
  pub currency : Str
  pub customer : Str
  pub user_id : Str
  pub account_id : Str

-- The arguments of `stripe.Payout.create`
pub record PayoutRequest : Type 0 where
  pub amount : ℕ
  pub currency : Str
  pub method : Str
  pub destination : Str

-- `int(amount.quantize(Decimal("0.01"), rounding=ROUND_HALF_UP) * 100)`
unfoldable pub smallest_unit : Decimal → ℕ
smallest_unit amount = (amount + 50_000_000) / cent

-- Of `create_stripe_deposit`
unfoldable pub intent_request : (ℕ → Str) → ℕ → ℕ → ℕ → Str → Str → IntentRequest
unfolding smallest_unit
intent_request id_text user_id account_id amount currency customer_id = record {
  amount = smallest_unit (of_cents amount);
  currency = lower currency;
  customer = customer_id;
  user_id = id_text user_id;
  account_id = id_text account_id;
}

-- Of `create_stripe_card_payout`
unfoldable pub card_request : ℕ → Str → Str → PayoutRequest
unfolding smallest_unit
card_request amount currency card_token = record {
  amount = smallest_unit (of_cents amount);
  currency = lower currency;
  method = codes "instant";
  destination = card_token;
}

-- Of `create_bank_account_payout`
unfoldable pub bank_request : ℕ → Str → Str → PayoutRequest
unfolding smallest_unit
bank_request amount currency bank_account_token = record {
  amount = smallest_unit (of_cents amount);
  currency = lower currency;
  method = codes "standard";
  destination = bank_account_token;
}

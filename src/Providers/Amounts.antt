-- ===== src/Providers/Amounts.antt =====
-- Proofs about the amounts that payouts/service.py and deposits/service.py ask the providers for.
use bridge_pay_backend.Common.{ℕ, ◌≡◌, ◌↔◌, ◌*◌, ◌+◌, ◌%◌, ◌≤◌, ◌<◌, refl, arith}
use bridge_pay_backend.Common.Int.{pos}
use bridge_pay_backend.Common.Text.{Str, codes, str_eq}
use bridge_pay_backend.Core.Settings.{Settings}
use bridge_pay_backend.Json.{Json, Fields, null, num, obj, end, field_or}
use bridge_pay_backend.Providers.Airtel.{disbursement_payload, collection_payload}
use bridge_pay_backend.Providers.Mpesa.{b2c_payload, stk_payload, whole_units}
use bridge_pay_backend.Providers.Stripe.{intent_request, card_request, bank_request, smallest_unit}
use bridge_pay_backend.Providers.Tokens.{Network}
use bridge_pay_backend.Schema.{of_cents}

abbrev pub amount_of : Fields → Json
amount_of payload = field_or (codes "Amount") payload null

abbrev pub fields_of : Json → Fields
fields_of (obj fs) = fs
fields_of _ = end

abbrev pub transaction_amount_of : Fields → Json
transaction_amount_of payload =
    field_or (codes "amount") (fields_of (field_or (codes "transaction") payload null)) null

-- M-Pesa and Airtel are asked for whole shillings in every payout and deposit, the same number: it is at most the amount,
-- less than a shilling below it, and the amount itself exactly when that has no cents. Stripe is asked for the
-- amount to the cent.
pub asked_amounts :
    (net : Network) (settings : Settings) (id_text : ℕ → Str)
    (credential password timestamp phone pin id : Str) (n : ℕ) (user_id account_id : ℕ)
    (currency customer_id token : Str)
    → (w : ℕ) × (amount_of (b2c_payload net settings credential phone n) ≡ num (pos w))
      × (amount_of (stk_payload net settings password timestamp phone n) ≡ num (pos w))
      × (transaction_amount_of (disbursement_payload net settings pin id phone n) ≡ num (pos w))
      × (transaction_amount_of (collection_payload net settings id phone n) ≡ num (pos w))
      × (w * 100 ≤ n)
      × (n < w * 100 + 100)
      × ((w * 100 ≡ n) ↔ (n % 100 ≡ 0))
      × ((intent_request id_text user_id account_id n currency customer_id).amount ≡ n)
      × ((card_request n currency token).amount ≡ n)
      × ((bank_request n currency token).amount ≡ n)
unfolding field_or b2c_payload str_eq stk_payload disbursement_payload collection_payload
    intent_request smallest_unit card_request of_cents bank_request whole_units
asked_amounts net settings id_text credential password timestamp phone pin id n user_id account_id
      currency customer_id token =
    (
      whole_units n,
      refl,
      refl,
      refl,
      refl,
      omega arith,
      omega arith,
      ground arith,
      omega arith,
      omega arith,
      omega arith,
    )

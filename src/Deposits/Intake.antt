-- ===== src/Deposits/Intake.antt =====
-- app/modules/deposits/service.py: asking the providers for the money. A deposit's row is written when a
-- provider has answered with a reference.
use bridge_pay_backend.Common.{ℕ, Option, none, some, if◌then◌else◌}
use bridge_pay_backend.Common.Text.{Str, codes, upper, is_given}
use bridge_pay_backend.Core.Phone.{normalize_mpesa, normalize_airtel}
use bridge_pay_backend.Errors.{Result, mpesa_request_failed, airtel_request_failed}
use bridge_pay_backend.Outside.{Outside}
use bridge_pay_backend.PaymentMethods.{ensure_stripe_customer}
use bridge_pay_backend.Providers.{Reply, read_mpesa, read_airtel, checked_phone}
use bridge_pay_backend.Schema.{User, Deposit, Provider}
use bridge_pay_backend.Session.{Action, pure, lift, option_case, fresh_id, ◌>>=◌}
use bridge_pay_backend.Deposits.{create, get_by_idempotency_key_for_user}

-- `if idempotency_key:` and the lookup behind it
unfoldable pub find_existing : ℕ → Option Str → Action (Option Deposit)
find_existing user_id none = pure none
find_existing user_id (some key) =
    if is_given (some key) then get_by_idempotency_key_for_user user_id key else pure none

-- What `stripe.PaymentIntent.create` and `retrieve` give.
pub record PaymentIntent : Type 0 where
  pub id : Str
  pub client_secret : Str

-- What Stripe is asked for: the intent of a reference, a customer, a new intent.
pub record StripeReplies : Type 0 where
  pub retrieve : Str → Result PaymentIntent
  pub customer : Result Str
  pub intent : Result PaymentIntent

-- (client_secret, deposit id)
unfoldable pub create_stripe_deposit :
    StripeReplies → User → ℕ → ℕ → Str → Option Str → Action (Str × ℕ)
create_stripe_deposit stripe user account_id amount currency idempotency_key = do
  existing ← find_existing user.id idempotency_key
  option_case existing
      (do
        customer_id ← ensure_stripe_customer stripe.customer user
        payment_intent ← lift stripe.intent
        deposit ←
            create user.id account_id Provider.stripe amount (upper currency) payment_intent.id
              idempotency_key
        pure (payment_intent.client_secret, deposit.id))
      λ deposit. do
        pi ← lift (stripe.retrieve deposit.external_reference)
        pure (pi.client_secret, deposit.id)

module _ (o : Outside) (reply : Reply) where
  unfoldable pub create_mpesa_deposit : User → ℕ → Str → ℕ → Option Str → Action ℕ
  create_mpesa_deposit user account_id phone_number amount idempotency_key = do
    existing ← find_existing user.id idempotency_key
    option_case existing
        (do
          normalized_phone ← lift (checked_phone (normalize_mpesa phone_number))
          checkout_request_id ← lift (
              read_mpesa o mpesa_request_failed (codes "CheckoutRequestID")
                (codes "STK push request failed: ")
                (codes "STK push did not return a CheckoutRequestID: ") reply)
          deposit ←
              create user.id account_id Provider.mpesa amount (codes "KES") checkout_request_id
                idempotency_key
          pure deposit.id)
        (λ deposit. pure deposit.id)

  unfoldable pub create_airtel_deposit : User → ℕ → Str → ℕ → Option Str → Action ℕ
  create_airtel_deposit user account_id phone_number amount idempotency_key = do
    existing ← find_existing user.id idempotency_key
    option_case existing
        (do
          normalized_phone ← lift (checked_phone (normalize_airtel phone_number))
          id ← fresh_id
          transaction_id ← lift (
              read_airtel o airtel_request_failed (o.id_text id)
                (codes "Collections request failed: ")
                (codes "Collections request was not accepted: ") reply)
          deposit ←
              create user.id account_id Provider.airtel amount (codes "KES") transaction_id
                idempotency_key
          pure deposit.id)
        (λ deposit. pure deposit.id)

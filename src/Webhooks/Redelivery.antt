-- ===== src/Webhooks/Redelivery.antt =====
-- Proofs about app/modules/webhooks: a callback that is delivered again.
use bridge_pay_backend.Common.{◌≡◌, Option}
use bridge_pay_backend.Common.Text.{Str}
use bridge_pay_backend.Deposits.Redelivery as Deposits
use bridge_pay_backend.Errors.{ok}
use bridge_pay_backend.Json.{Json}
use bridge_pay_backend.Outside.{Outside}
use bridge_pay_backend.Payouts.Redelivery as Payouts
use bridge_pay_backend.Schema.{Db}
use bridge_pay_backend.Session.Ends.{Once-lift, Once-if, Once-endpoint}
use bridge_pay_backend.Webhooks.{
  verify_and_dispatch_stripe_event, verify_airtel_or_raise, dispatch_airtel_collection_callback,
  dispatch_airtel_disbursement_callback, stripe_webhook, mpesa_stk_callback, mpesa_b2c_result,
  airtel_collection_callback, airtel_disbursement_callback,
}

module _ (o : Outside) where
  -- M-Pesa's report of a payout is acted on once: where the route has handled it, the same callback again is
  -- answered the same and changes nothing.
  pub mpesa_b2c_result_once :
      (payload : Json) (s s' : Db)
      → mpesa_b2c_result o payload s ≡ (ok tt, s')
      → mpesa_b2c_result o payload s' ≡ (ok tt, s')
  unfolding mpesa_b2c_result
  mpesa_b2c_result_once payload = (Once-endpoint _ _ (Payouts.Once-mpesa o payload)).at

  -- M-Pesa's report of a deposit is acted on once: where the route has handled it, the same callback again is
  -- answered the same and changes nothing.
  pub mpesa_stk_callback_once :
      (payload : Json) (s s' : Db)
      → mpesa_stk_callback o payload s ≡ (ok tt, s')
      → mpesa_stk_callback o payload s' ≡ (ok tt, s')
  unfolding mpesa_stk_callback
  mpesa_stk_callback_once payload = (Once-endpoint _ _ (Deposits.Once-stk o payload)).at

  -- Airtel's report of a payout is acted on once: where the route has handled it, the same request again is
  -- answered the same and changes nothing.
  pub airtel_disbursement_callback_once :
      (raw_body : Str) (signature : Option Str) (s s' : Db)
      → airtel_disbursement_callback o raw_body signature s ≡ (ok tt, s')
      → airtel_disbursement_callback o raw_body signature s' ≡ (ok tt, s')
  unfolding airtel_disbursement_callback dispatch_airtel_disbursement_callback
      verify_airtel_or_raise
  airtel_disbursement_callback_once raw_body signature =
      (Once-endpoint _ _ (Once-lift _ _ (λ _. Once-lift _ _ (Payouts.Once-airtel o)))).at

  -- Airtel's report of a deposit is acted on once: where the route has handled it, the same request again is
  -- answered the same and changes nothing.
  pub airtel_collection_callback_once :
      (raw_body : Str) (signature : Option Str) (s s' : Db)
      → airtel_collection_callback o raw_body signature s ≡ (ok tt, s')
      → airtel_collection_callback o raw_body signature s' ≡ (ok tt, s')
  unfolding airtel_collection_callback dispatch_airtel_collection_callback verify_airtel_or_raise
  airtel_collection_callback_once raw_body signature =
      (Once-endpoint _ _ (Once-lift _ _ (λ _. Once-lift _ _ (Deposits.Once-airtel o)))).at

  -- An event of Stripe's, for a deposit or for a payout, is acted on once: where the route has handled it, the
  -- same event again is answered the same and changes nothing.
  pub stripe_webhook_once :
      (payload : Str) (signature : Option Str) (s s' : Db)
      → stripe_webhook o payload signature s ≡ (ok tt, s')
      → stripe_webhook o payload signature s' ≡ (ok tt, s')
  unfolding stripe_webhook verify_and_dispatch_stripe_event
  stripe_webhook_once payload signature =
      (Once-endpoint _ _ (
        Once-lift _ _ (λ event.
          Once-lift _ _ (λ type.
            Once-if _ _ _ (Payouts.Once-stripe o event) (Deposits.Once-stripe o event))))).at

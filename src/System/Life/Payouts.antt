-- ===== src/System/Life/Payouts.antt =====
-- Proofs about the routes of payouts and the callbacks of app/modules/webhooks: payouts live on as they should.
use bridge_pay_backend.Common.{ℕ, suc, List, Option}
use bridge_pay_backend.Common.Text.{Str}
use bridge_pay_backend.Errors.{Result}
use bridge_pay_backend.Json.{Json}
use bridge_pay_backend.Outside.{Outside}
use bridge_pay_backend.Payouts.Callbacks.{
  handle_mpesa_b2c_result, handle_airtel_disbursement_callback, handle_stripe_payout_failed_event,
}
use bridge_pay_backend.Payouts.Lifecycle.Callbacks.{
  Keeps-handle_mpesa_b2c_result, Keeps-handle_airtel_disbursement_callback,
  Keeps-handle_stripe_payout_failed_event,
}
use bridge_pay_backend.Payouts.Lifecycle.Calls.{
  Keeps-create_mpesa_payout, Keeps-create_airtel_payout, Keeps-create_stripe_card_payout,
  Keeps-create_bank_account_payout,
}
use bridge_pay_backend.Payouts.Lifecycle.Steps.{Of, IsLater, IsLater-next}
use bridge_pay_backend.Payouts.Router.{
  get_own_account_id, as_owner, payout_via_mpesa, payout_via_airtel, payout_via_stripe_card,
  payout_via_bank_account,
}
use bridge_pay_backend.Payouts.Stripe.{PayoutResult}
use bridge_pay_backend.Providers.{Reply}
use bridge_pay_backend.Schema.{Payout, User}
use bridge_pay_backend.Session.{Action}
use bridge_pay_backend.Session.Keeps.{Keeps}
use bridge_pay_backend.System.Life.Money.{
  handle_mpesa_stk_callback-Keeps, handle_airtel_collection_callback-Keeps,
  handle_stripe_webhook_event-Keeps,
}
use bridge_pay_backend.System.Life.Rules.{life_rules}
use bridge_pay_backend.Webhooks.{
  verify_airtel_or_raise, verify_and_dispatch_stripe_event, dispatch_airtel_collection_callback,
  dispatch_airtel_disbursement_callback, stripe_webhook, mpesa_stk_callback, mpesa_b2c_result,
  airtel_collection_callback, airtel_disbursement_callback,
}

-- Routes over what they call, for any property of payouts.
module _ (F : List Payout → ℕ → Type 0) (next : (ps : List Payout) (n : ℕ) → F ps n → F ps (suc n))
    (o : Outside) where
  kept_by_as_owner :
      (subject : Option ℕ) (act : User → ℕ → Action Payout)
      → ((user : User) (id : ℕ) → Keeps (Of F) (act user id))
      → Keeps (Of F) (as_owner o subject act)
  unfolding as_owner get_own_account_id
  kept_by_as_owner subject act k = search life_rules depth 12

  module _ (body : Str) (signature : Option Str) where
    kept_by_stripe_webhook :
        ((event : Json) → Keeps (Of F) (handle_stripe_payout_failed_event o event))
        → Keeps (Of F) (stripe_webhook o body signature)
    unfolding stripe_webhook verify_and_dispatch_stripe_event
    kept_by_stripe_webhook k = search (life_rules, handle_stripe_webhook_event-Keeps) depth 12

    kept_by_airtel_collection : Keeps (Of F) (airtel_collection_callback o body signature)
    unfolding airtel_collection_callback dispatch_airtel_collection_callback verify_airtel_or_raise
    kept_by_airtel_collection =
        search (life_rules, handle_airtel_collection_callback-Keeps) depth 12

    kept_by_airtel_disbursement :
        ((payload : Json) → Keeps (Of F) (handle_airtel_disbursement_callback o payload))
        → Keeps (Of F) (airtel_disbursement_callback o body signature)
    unfolding airtel_disbursement_callback dispatch_airtel_disbursement_callback
        verify_airtel_or_raise
    kept_by_airtel_disbursement k = search life_rules depth 12

  kept_by_stk_callback : (payload : Json) → Keeps (Of F) (mpesa_stk_callback o payload)
  unfolding mpesa_stk_callback
  kept_by_stk_callback payload = search (life_rules, handle_mpesa_stk_callback-Keeps)

  kept_by_b2c_result :
      (payload : Json)
      → Keeps (Of F) (handle_mpesa_b2c_result o payload)
      → Keeps (Of F) (mpesa_b2c_result o payload)
  unfolding mpesa_b2c_result
  kept_by_b2c_result payload k = search life_rules

module _ (start : List Payout) (o : Outside) where
  as_owner-Keeps :
      (subject : Option ℕ) (act : User → ℕ → Action Payout)
      → ((user : User) (id : ℕ) → Keeps (Of (IsLater start)) (act user id))
      → Keeps (Of (IsLater start)) (as_owner o subject act)
  as_owner-Keeps = kept_by_as_owner (IsLater start) (IsLater-next start) o

  module _ (subject : Option ℕ) (to email : Str) (amount : ℕ) (key : Option Str) where
    pub payout_via_mpesa-Keeps :
        (reply : Reply)
        → Keeps (Of (IsLater start)) (payout_via_mpesa o subject reply to email amount key)
    unfolding payout_via_mpesa
    payout_via_mpesa-Keeps reply =
        as_owner-Keeps subject _
          λ user id. Keeps-create_mpesa_payout start o user id to email amount key reply

    pub payout_via_airtel-Keeps :
        (reply : Reply)
        → Keeps (Of (IsLater start)) (payout_via_airtel o subject reply to email amount key)
    unfolding payout_via_airtel
    payout_via_airtel-Keeps reply =
        as_owner-Keeps subject _
          λ user id. Keeps-create_airtel_payout start o user id to email amount key reply

    pub payout_via_stripe_card-Keeps :
        (reply : Result PayoutResult) (currency : Str)
        → Keeps
            (Of (IsLater start))
            (payout_via_stripe_card o subject reply to email amount currency key)
    unfolding payout_via_stripe_card
    payout_via_stripe_card-Keeps reply currency = as_owner-Keeps subject _ λ user id.
        Keeps-create_stripe_card_payout start o user id to email amount key reply currency

    pub payout_via_bank_account-Keeps :
        (reply : Result PayoutResult) (country currency : Str)
        → Keeps
            (Of (IsLater start))
            (payout_via_bank_account o subject reply to country email amount currency key)
    unfolding payout_via_bank_account
    payout_via_bank_account-Keeps reply country currency = as_owner-Keeps subject _ λ user id.
        Keeps-create_bank_account_payout start o user id to email amount key reply currency country

  module _ (body : Str) (signature : Option Str) where
    pub stripe_webhook-Keeps : Keeps (Of (IsLater start)) (stripe_webhook o body signature)
    stripe_webhook-Keeps =
        kept_by_stripe_webhook (IsLater start) (IsLater-next start) o body signature
          (Keeps-handle_stripe_payout_failed_event start o)

    pub airtel_collection_callback-Keeps :
        Keeps (Of (IsLater start)) (airtel_collection_callback o body signature)
    airtel_collection_callback-Keeps =
        kept_by_airtel_collection (IsLater start) (IsLater-next start) o body signature

    pub airtel_disbursement_callback-Keeps :
        Keeps (Of (IsLater start)) (airtel_disbursement_callback o body signature)
    airtel_disbursement_callback-Keeps =
        kept_by_airtel_disbursement (IsLater start) (IsLater-next start) o body signature
          (Keeps-handle_airtel_disbursement_callback start o)

  pub mpesa_stk_callback-Keeps :
      (payload : Json) → Keeps (Of (IsLater start)) (mpesa_stk_callback o payload)
  mpesa_stk_callback-Keeps = kept_by_stk_callback (IsLater start) (IsLater-next start) o

  pub mpesa_b2c_result-Keeps :
      (payload : Json) → Keeps (Of (IsLater start)) (mpesa_b2c_result o payload)
  mpesa_b2c_result-Keeps payload =
      kept_by_b2c_result (IsLater start) (IsLater-next start) o payload
        (Keeps-handle_mpesa_b2c_result start o payload)

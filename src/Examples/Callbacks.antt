-- ===== src/Examples/Callbacks.antt =====
-- Runs of the callbacks.
use bridge_pay_backend.Common.{◌≡◌, refl, some}
use bridge_pay_backend.Common.Text.{codes}
use bridge_pay_backend.Errors.{ok}
use bridge_pay_backend.Examples.World.{world, bank}
use bridge_pay_backend.Json.{Json, str, num, obj, field, end}
use bridge_pay_backend.Schema.{Db}
use bridge_pay_backend.Webhooks.{
  stripe_webhook, mpesa_stk_callback, mpesa_b2c_result, airtel_collection_callback,
  airtel_disbursement_callback, verify_callback_signature,
}
use bridge_pay_backend.Webhooks.Redelivery.{
  mpesa_b2c_result_once, mpesa_stk_callback_once, airtel_disbursement_callback_once,
  airtel_collection_callback_once, stripe_webhook_once,
}
use bridge_pay_backend.Common.Int.{pos}
use bridge_pay_backend.Common.Int.{◌+ℤ◌}
use bridge_pay_backend.Common.Table.{select, update}
use bridge_pay_backend.Common.Text.{str_eq, upper}
use bridge_pay_backend.Json.{get_or, field_or, as_text, is_truthy, is_zero, is_str, or_unknown}
use bridge_pay_backend.Session.{endpoint, close, ◌>>=◌, scalar_one, scalar_one_or_none, attempt}
use bridge_pay_backend.Users.{get_user}
use bridge_pay_backend.Notifications.{notify}
use bridge_pay_backend.Payouts
use bridge_pay_backend.Payouts.Callbacks.{
  with_payout, settle_payout, awaits, handle_mpesa_b2c_result, handle_airtel_disbursement_callback,
}
use bridge_pay_backend.Payouts.Wallet.{complete}
use bridge_pay_backend.Schema.{is_pending, is_pending_deposit, of_cents}
use bridge_pay_backend.Deposits
use bridge_pay_backend.Deposits.Callbacks.{
  with_pending, settle_deposit, handle_mpesa_stk_callback, handle_airtel_collection_callback,
  handle_stripe_webhook_event, on_event,
}
use bridge_pay_backend.Deposits.Credit.{
  credit_account_and_record, after_conversion, credit_converted, finish,
}
use bridge_pay_backend.Accounts.{get_by_id_locked, credit, add_transaction, scale, rounded}
use bridge_pay_backend.Core.Rates.{convert, get_exchange_rate}
use bridge_pay_backend.Webhooks.{
  dispatch_airtel_collection_callback, dispatch_airtel_disbursement_callback,
  verify_airtel_or_raise, digest_matches, verify_and_dispatch_stripe_event, checked_event,
}

-- The payout of the reference "out" has gone through.
abbrev b2c : Json
b2c = obj (
    field (codes "Result")
      (obj (
        field (codes "ConversationID") (str (codes "out"))
          (field (codes "ResultCode") (num (pos 0)) end)))
      end)

abbrev paid : Db
paid = (mpesa_b2c_result world b2c bank).1

-- The deposit of the reference "in" has come.
abbrev stk : Json
stk = obj (
    field (codes "Body")
      (obj (
        field (codes "stkCallback")
          (obj (
            field (codes "CheckoutRequestID") (str (codes "in"))
              (field (codes "ResultCode") (num (pos 0)) end)))
          end))
      end)

abbrev credited : Db
credited = (mpesa_stk_callback world stk bank).1

abbrev disbursed : Db
disbursed = (airtel_disbursement_callback world (codes "out") (some (codes "k")) bank).1

abbrev collected : Db
collected = (airtel_collection_callback world (codes "in") (some (codes "k")) bank).1

abbrev confirmed : Db
confirmed = (stripe_webhook world (codes "in") (some (codes "s")) bank).1

mpesa_b2c_result_once_example : mpesa_b2c_result world b2c paid ≡ (ok tt, paid)
unfolding mpesa_b2c_result handle_mpesa_b2c_result with_payout settle_payout awaits is_pending
    complete Payouts.mark_completed Payouts.change Payouts.completed
    Payouts.get_by_external_reference endpoint close ◌>>=◌ get_or field_or as_text is_truthy is_zero
    is_str str_eq select update scalar_one scalar_one_or_none get_user notify
mpesa_b2c_result_once_example = mpesa_b2c_result_once world b2c bank paid refl

mpesa_stk_callback_once_example : mpesa_stk_callback world stk credited ≡ (ok tt, credited)
unfolding mpesa_stk_callback handle_mpesa_stk_callback with_pending settle_deposit
    is_pending_deposit credit_account_and_record get_by_id_locked attempt convert get_exchange_rate
    upper after_conversion credit_converted credit add_transaction finish Deposits.mark_completed
    Deposits.change Deposits.completed Deposits.get_by_external_reference of_cents scale rounded
    ◌+ℤ◌ endpoint close ◌>>=◌ get_or field_or as_text is_truthy is_zero is_str str_eq select update
    scalar_one scalar_one_or_none get_user notify
mpesa_stk_callback_once_example = mpesa_stk_callback_once world stk bank credited refl

airtel_disbursement_callback_once_example :
    airtel_disbursement_callback world (codes "out") (some (codes "k")) disbursed
    ≡ (ok tt, disbursed)
unfolding airtel_disbursement_callback dispatch_airtel_disbursement_callback
    handle_airtel_disbursement_callback or_unknown verify_airtel_or_raise verify_callback_signature
    digest_matches with_payout settle_payout awaits is_pending complete Payouts.mark_completed
    Payouts.change Payouts.completed Payouts.get_by_external_reference endpoint close ◌>>=◌ get_or
    field_or as_text is_truthy is_zero is_str str_eq select update scalar_one scalar_one_or_none
    get_user notify
airtel_disbursement_callback_once_example =
    airtel_disbursement_callback_once world (codes "out") (some (codes "k")) bank disbursed refl

airtel_collection_callback_once_example :
    airtel_collection_callback world (codes "in") (some (codes "k")) collected ≡ (ok tt, collected)
unfolding airtel_collection_callback dispatch_airtel_collection_callback
    handle_airtel_collection_callback or_unknown verify_airtel_or_raise verify_callback_signature
    digest_matches with_pending settle_deposit is_pending_deposit credit_account_and_record
    get_by_id_locked attempt convert get_exchange_rate upper after_conversion credit_converted
    credit add_transaction finish Deposits.mark_completed Deposits.change Deposits.completed
    Deposits.get_by_external_reference of_cents scale rounded ◌+ℤ◌ endpoint close ◌>>=◌ get_or
    field_or as_text is_truthy is_zero is_str str_eq select update scalar_one scalar_one_or_none
    get_user notify
airtel_collection_callback_once_example =
    airtel_collection_callback_once world (codes "in") (some (codes "k")) bank collected refl

stripe_webhook_once_example :
    stripe_webhook world (codes "in") (some (codes "s")) confirmed ≡ (ok tt, confirmed)
unfolding stripe_webhook verify_and_dispatch_stripe_event checked_event handle_stripe_webhook_event
    on_event with_pending settle_deposit is_pending_deposit credit_account_and_record
    get_by_id_locked attempt convert get_exchange_rate upper after_conversion credit_converted
    credit add_transaction finish Deposits.mark_completed Deposits.change Deposits.completed
    Deposits.get_by_external_reference of_cents scale rounded ◌+ℤ◌ endpoint close ◌>>=◌ get_or
    field_or as_text is_truthy is_zero is_str str_eq select update scalar_one scalar_one_or_none
    get_user notify
stripe_webhook_once_example =
    stripe_webhook_once world (codes "in") (some (codes "s")) bank confirmed refl

-- ===== src/Deposits/Callbacks.antt =====
-- app/modules/deposits/service.py: what the providers report of a deposit.
use bridge_pay_backend.Common.{Bool, not, ◌++◌, if◌then◌else◌}
use bridge_pay_backend.Common.Text.{codes}
use bridge_pay_backend.Json.{
  Json, null, str, obj, end, get_or, is_truthy, is_zero, is_str, as_text, or_unknown,
}
use bridge_pay_backend.Outside.{Outside}
use bridge_pay_backend.Schema.{Deposit, is_pending_deposit}
use bridge_pay_backend.Session.{Action, pure, lift, option_case, ◌>>=◌}
use bridge_pay_backend.Deposits.{get_by_external_reference}
use bridge_pay_backend.Deposits.Credit.{credit_account_and_record, fail}

-- `if not reference: return`, the lookup, and the return unless a pending deposit is found.
unfoldable pub with_pending : Json → (Deposit → Action (Unit {0})) → Action (Unit {0})
with_pending reference act = if not (is_truthy reference) then pure tt else do
  text ← lift (as_text reference)
  found ← get_by_external_reference text
  option_case found (pure tt)
      λ deposit. if is_pending_deposit deposit.status then act deposit else pure tt

module _ (o : Outside) where
  -- `_credit_account_and_record` or the failure for a reason.
  unfoldable pub settle_deposit : Bool → Json → Deposit → Action (Unit {0})
  settle_deposit success reason deposit =
      if success then credit_account_and_record o deposit else fail deposit reason

  unfoldable pub handle_mpesa_stk_callback : Json → Action (Unit {0})
  handle_mpesa_stk_callback payload = do
    body ← lift (get_or payload (codes "Body") (obj end))
    callback ← lift (get_or body (codes "stkCallback") (obj end))
    checkout_request_id ← lift (get_or callback (codes "CheckoutRequestID") null)
    result_code ← lift (get_or callback (codes "ResultCode") null)
    result_desc ← lift (get_or callback (codes "ResultDesc") (str (codes "Unknown error")))
    with_pending checkout_request_id (settle_deposit (is_zero result_code) result_desc)

  unfoldable pub handle_airtel_collection_callback : Json → Action (Unit {0})
  handle_airtel_collection_callback payload = do
    transaction ← lift (get_or payload (codes "transaction") (obj end))
    transaction_id ← lift (get_or transaction (codes "id") null)
    status_code ← lift (get_or transaction (codes "status_code") null)
    let reason = str (codes "Airtel Money transaction status: " ++ or_unknown o.repr status_code)
    with_pending transaction_id (settle_deposit (is_str status_code (codes "TS")) reason)

  -- What an event does to a pending deposit; an event of a third type does nothing.
  unfoldable pub on_event : Json → Json → Deposit → Action (Unit {0})
  on_event event_type pi_data deposit =
      if is_str event_type (codes "payment_intent.succeeded")
      then credit_account_and_record o deposit
      else if is_str event_type (codes "payment_intent.payment_failed")
      then (do
        last_payment_error ← lift (get_or pi_data (codes "last_payment_error") (obj end))
        reason ← lift (get_or last_payment_error (codes "message") (str (codes "Payment failed")))
        fail deposit reason)
      else pure tt

  unfoldable pub handle_stripe_webhook_event : Json → Action (Unit {0})
  handle_stripe_webhook_event event = do
    event_type ← lift (get_or event (codes "type") null)
    event_data ← lift (get_or event (codes "data") (obj end))
    pi_data ← lift (get_or event_data (codes "object") (obj end))
    pi_id ← lift (get_or pi_data (codes "id") null)
    with_pending pi_id (on_event event_type pi_data)

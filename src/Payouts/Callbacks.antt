-- ===== src/Payouts/Callbacks.antt =====
-- app/modules/payouts/service.py: what the providers report of a payout later. The handlers look the payout
-- up by its reference, so the Payout object is its row.
use bridge_pay_backend.Common.{Bool, not, ◌++◌, if◌then◌else◌}
use bridge_pay_backend.Common.Text.{codes}
use bridge_pay_backend.Json.{
  Json, null, str, obj, end, get_or, is_truthy, is_zero, is_str, as_text, or_unknown,
}
use bridge_pay_backend.Outside.{Outside}
use bridge_pay_backend.Schema.{Payout, is_pending, is_completed}
use bridge_pay_backend.Session.{Action, pure, lift, option_case, ◌>>=◌, ◌>>◌}
use bridge_pay_backend.Payouts.{get_by_external_reference}
use bridge_pay_backend.Payouts.Wallet.{reverse_deduction, complete}

-- `if not reference: return`, the lookup, and `if payout is None or not <test>: return`.
unfoldable pub with_payout :
    Json → (Payout → Bool) → (Payout → Action (Unit {0})) → Action (Unit {0})
with_payout reference test act = if not (is_truthy reference) then pure tt else do
  text ← lift (as_text reference)
  found ← get_by_external_reference text
  option_case found (pure tt) λ payout. if test payout then act payout else pure tt

unfoldable pub awaits : Payout → Bool
awaits p = is_pending p.status

unfoldable pub was_sent : Payout → Bool
was_sent p = is_completed p.status

module _ (o : Outside) where
  -- The end of a pending payout: sent, or failed for a reason.
  unfoldable pub settle_payout : Bool → Json → Payout → Action (Unit {0})
  settle_payout success reason payout =
      if success
      then complete o payout payout.transaction_id >> pure tt
      else reverse_deduction o payout reason >> pure tt

  unfoldable pub handle_mpesa_b2c_result : Json → Action (Unit {0})
  handle_mpesa_b2c_result payload = do
    result ← lift (get_or payload (codes "Result") (obj end))
    conversation_id ← lift (get_or result (codes "ConversationID") null)
    result_code ← lift (get_or result (codes "ResultCode") null)
    result_desc ← lift (get_or result (codes "ResultDesc") (str (codes "Unknown error")))
    with_payout conversation_id awaits (settle_payout (is_zero result_code) result_desc)

  unfoldable pub handle_airtel_disbursement_callback : Json → Action (Unit {0})
  handle_airtel_disbursement_callback payload = do
    transaction ← lift (get_or payload (codes "transaction") (obj end))
    transaction_id ← lift (get_or transaction (codes "id") null)
    status_code ← lift (get_or transaction (codes "status_code") null)
    let reason = str (codes "Airtel Money transaction status: " ++ or_unknown o.repr status_code)
    with_payout transaction_id awaits (settle_payout (is_str status_code (codes "TS")) reason)

  unfoldable pub handle_stripe_payout_failed_event : Json → Action (Unit {0})
  handle_stripe_payout_failed_event event = do
    event_data ← lift (get_or event (codes "data") (obj end))
    payout_data ← lift (get_or event_data (codes "object") (obj end))
    payout_id ← lift (get_or payout_data (codes "id") null)
    with_payout payout_id was_sent λ payout. do
      reason ← lift (
          get_or payout_data (codes "failure_message")
            (str (codes "Payout failed after being sent")))
      reverse_deduction o payout reason
      pure tt

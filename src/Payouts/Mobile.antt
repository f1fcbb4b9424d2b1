-- ===== src/Payouts/Mobile.antt =====
-- app/modules/payouts/service.py: payouts to M-Pesa and to Airtel Money.
use bridge_pay_backend.Common.{ℕ, Option, none, some, if◌then◌else◌}
use bridge_pay_backend.Common.Text.{Str, codes, is_given}
use bridge_pay_backend.Core.Phone.{normalize_mpesa, normalize_airtel}
use bridge_pay_backend.Errors.{
  Error, mpesa_request_failed, airtel_request_failed, runtime_error, http_error,
}
use bridge_pay_backend.Json.{str}
use bridge_pay_backend.Outside.{Outside}
use bridge_pay_backend.Providers.{Reply, read_mpesa, read_airtel, checked_phone}
use bridge_pay_backend.Schema.{User, Payout, Provider}
use bridge_pay_backend.Session.{
  Action, pure, raise, lift, option_case, fresh_id, catch, ◌>>=◌, ◌>>◌,
}
use bridge_pay_backend.Payouts.{create, get_by_idempotency_key_for_user, set_external_reference}
use bridge_pay_backend.Payouts.Wallet.{
  deduct_balance_and_record, reverse_deduction, conversion_happened,
}

-- `if idempotency_key:` and the lookup behind it
unfoldable pub find_existing : ℕ → Option Str → Action (Option Payout)
find_existing user_id none = pure none
find_existing user_id (some key) =
    if is_given (some key) then get_by_idempotency_key_for_user user_id key else pure none

-- `x if conversion_happened else None`
abbrev pub if_converted : {A : Type 0} → Str → Str → A → Option A
if_converted currency account_currency x =
    if conversion_happened currency account_currency then some x else none

module _ (o : Outside) where
  -- The deduction and the payout's row, as every provider's function begins.
  unfoldable pub open_payout :
      User → ℕ → Provider → Str → Str → ℕ → Str → Option Str → Action Payout
  open_payout user account_id provider destination recipient_email amount currency idempotency_key =
      do
        deducted ← deduct_balance_and_record o account_id amount currency
        create o user.id account_id provider destination recipient_email amount currency
            idempotency_key (if_converted currency deducted.account_currency deducted.exchange_rate)
            (if_converted currency deducted.account_currency deducted.converted_amount)
            (some deducted.transaction_id)

  -- `except (MpesaRequestFailed, RuntimeError, httpx.HTTPError) as e`
  unfoldable pub reverse_mpesa : Payout → Error → Action Payout
  reverse_mpesa payout (mpesa_request_failed e) =
      reverse_deduction o payout (str e) >> raise (mpesa_request_failed e)
  reverse_mpesa payout (runtime_error e) =
      reverse_deduction o payout (str e) >> raise (mpesa_request_failed e)
  reverse_mpesa payout (http_error e) =
      reverse_deduction o payout (str e) >> raise (mpesa_request_failed e)
  reverse_mpesa payout e = raise e

  -- The request to Daraja and the reference that its answer names.
  unfoldable pub send_mpesa : Reply → Payout → Action Payout
  send_mpesa reply payout =
      catch
        (do
          conversation_id ← lift (
              read_mpesa o mpesa_request_failed (codes "ConversationID")
                (codes "B2C request failed: ")
                (codes "B2C request did not return a ConversationID: ") reply)
          set_external_reference payout conversation_id)
        (reverse_mpesa payout)

  unfoldable pub create_mpesa_payout : Reply → User → ℕ → Str → Str → ℕ → Option Str → Action Payout
  create_mpesa_payout reply user account_id phone_number recipient_email amount idempotency_key = do
    existing ← find_existing user.id idempotency_key
    option_case existing
        (do
          normalized_phone ← lift (checked_phone (normalize_mpesa phone_number))
          payout ←
              open_payout user account_id Provider.mpesa normalized_phone recipient_email amount
                (codes "KES") idempotency_key
          send_mpesa reply payout)
        pure

  -- `except (AirtelRequestFailed, RuntimeError, httpx.HTTPError) as e`
  unfoldable pub reverse_airtel : Payout → Error → Action Payout
  reverse_airtel payout (airtel_request_failed e) =
      reverse_deduction o payout (str e) >> raise (airtel_request_failed e)
  reverse_airtel payout (runtime_error e) =
      reverse_deduction o payout (str e) >> raise (airtel_request_failed e)
  reverse_airtel payout (http_error e) =
      reverse_deduction o payout (str e) >> raise (airtel_request_failed e)
  reverse_airtel payout e = raise e

  -- The disbursement under an id of our own, which becomes the payout's reference.
  unfoldable pub send_airtel : Reply → Payout → Action Payout
  send_airtel reply payout =
      catch
        (do
          id ← fresh_id
          transaction_id ← lift (
              read_airtel o airtel_request_failed (o.id_text id)
                (codes "Disbursement request failed: ")
                (codes "Disbursement request was not accepted: ") reply)
          set_external_reference payout transaction_id)
        (reverse_airtel payout)

  unfoldable pub create_airtel_payout :
      Reply → User → ℕ → Str → Str → ℕ → Option Str → Action Payout
  create_airtel_payout reply user account_id phone_number recipient_email amount idempotency_key =
      do
        existing ← find_existing user.id idempotency_key
        option_case existing
            (do
              normalized_phone ← lift (checked_phone (normalize_airtel phone_number))
              payout ←
                  open_payout user account_id Provider.airtel normalized_phone recipient_email
                    amount (codes "KES") idempotency_key
              send_airtel reply payout)
            pure

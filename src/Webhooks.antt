-- ===== src/Webhooks.antt =====
-- app/modules/webhooks (service.py, router.py) and `verify_callback_signature` of app/core/airtel_client.py.
pub mod Guarded
pub mod Redelivery
use bridge_pay_backend.Common.{Bool, false, not, ◌||◌, ◌&&◌, Option, none, some, if◌then◌else◌}
use bridge_pay_backend.Common.Text.{Str, codes, str_eq, is_ascii, is_given}
use bridge_pay_backend.Deposits.Callbacks.{
  handle_mpesa_stk_callback, handle_airtel_collection_callback, handle_stripe_webhook_event,
}
use bridge_pay_backend.Errors.{
  Error, Result, ok, err, value_error, type_error, signature_verification_error,
  invalid_webhook_signature, guard,
}
use bridge_pay_backend.Json.{Json, null, get_or, is_str}
use bridge_pay_backend.Outside.{Outside}
use bridge_pay_backend.Payouts.Callbacks.{
  handle_mpesa_b2c_result, handle_airtel_disbursement_callback, handle_stripe_payout_failed_event,
}
use bridge_pay_backend.Session.{Action, pure, lift, endpoint, ◌>>=◌, ◌>>◌}

-- `except (ValueError, SignatureVerificationError)`
unfoldable pub checked_event : Result Json → Result Json
checked_event (ok event) = ok event
checked_event (err value_error) = err invalid_webhook_signature
checked_event (err signature_verification_error) = err invalid_webhook_signature
checked_event (err e) = err e

-- `hmac.compare_digest` of two texts, which takes ASCII alone.
unfoldable pub compare_digest : Str → Str → Result Bool
unfolding is_ascii
compare_digest a b = if is_ascii a && is_ascii b then ok (str_eq a b) else err type_error

unfoldable pub digest_matches : Outside → Str → Option Str → Result Bool
unfolding compare_digest
digest_matches o raw_body none = ok false
digest_matches o raw_body (some signature) =
    compare_digest (o.hmac_sha256 o.airtel_callback_secret raw_body) signature

-- `if not verify_callback_signature(...): raise InvalidWebhookSignature()`
unfoldable pub required : Result Bool → Result (Unit {0})
required (ok valid) = guard valid invalid_webhook_signature
required (err e) = err e

module _ (o : Outside) where
  unfoldable pub verify_and_dispatch_stripe_event : Str → Option Str → Action (Unit {0})
  verify_and_dispatch_stripe_event payload signature = do
    event ← lift (checked_event (o.construct_event payload signature))
    event_type ← lift (get_or event (codes "type") null)
    if is_str event_type (codes "payout.failed")
        then handle_stripe_payout_failed_event o event
        else handle_stripe_webhook_event o event

  unfoldable pub verify_callback_signature : Str → Option Str → Result Bool
  unfolding digest_matches
  verify_callback_signature raw_body signature =
      if not (is_given signature) || not (is_given (some o.airtel_callback_secret))
      then ok false
      else digest_matches o raw_body signature

  -- `_verify_airtel_or_raise`
  unfoldable pub verify_airtel_or_raise : Str → Option Str → Action (Unit {0})
  unfolding required
  verify_airtel_or_raise raw_body signature =
      lift (required (verify_callback_signature raw_body signature))

  unfoldable pub dispatch_airtel_collection_callback : Str → Option Str → Action (Unit {0})
  dispatch_airtel_collection_callback raw_body signature = do
    verify_airtel_or_raise raw_body signature
    payload ← lift (o.json_loads raw_body)
    handle_airtel_collection_callback o payload

  unfoldable pub dispatch_airtel_disbursement_callback : Str → Option Str → Action (Unit {0})
  dispatch_airtel_disbursement_callback raw_body signature = do
    verify_airtel_or_raise raw_body signature
    payload ← lift (o.json_loads raw_body)
    handle_airtel_disbursement_callback o payload

  -- The routes: a commit behind the handler, and none behind an error.
  unfoldable pub stripe_webhook : Str → Option Str → Action (Unit {0})
  stripe_webhook payload signature =
      endpoint (λ e. false) (verify_and_dispatch_stripe_event payload signature)

  unfoldable pub mpesa_stk_callback : Json → Action (Unit {0})
  mpesa_stk_callback payload = endpoint (λ e. false) (handle_mpesa_stk_callback o payload)

  unfoldable pub mpesa_b2c_result : Json → Action (Unit {0})
  mpesa_b2c_result payload = endpoint (λ e. false) (handle_mpesa_b2c_result o payload)

  unfoldable pub airtel_collection_callback : Str → Option Str → Action (Unit {0})
  airtel_collection_callback raw_body signature =
      endpoint (λ e. false) (dispatch_airtel_collection_callback raw_body signature)

  unfoldable pub airtel_disbursement_callback : Str → Option Str → Action (Unit {0})
  airtel_disbursement_callback raw_body signature =
      endpoint (λ e. false) (dispatch_airtel_disbursement_callback raw_body signature)

-- `mpesa_b2c_timeout` logs the report and leaves the payout pending.
unfoldable pub mpesa_b2c_timeout : Json → Action (Unit {0})
mpesa_b2c_timeout payload = pure tt

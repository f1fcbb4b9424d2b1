-- ===== src/Errors.antt =====
-- The exceptions of the services and of what they call, and results that may be one of them.
-- A text stands for `str(e)`, which the payout handlers keep as the reason of a reversal.
use bridge_pay_backend.Common.{Bool, true, false}
use bridge_pay_backend.Common.Text.{Str}

pub data Error : Type 0 where
  insufficient_funds self_transfer recipient_not_found account_not_found : Error
  invalid_phone_number invalid_country : Error
  exchange_rate_unavailable : Str → Error
  mpesa_request_failed airtel_request_failed stripe_payout_failed : Str → Error
  runtime_error http_error stripe_error : Str → Error
  no_result_found multiple_results_found integrity_error data_error : Error
  attribute_error value_error : Error
  invalid_webhook_signature signature_verification_error : Error
  refresh_token_reused refresh_token_invalid : Error
  email_verification_token_invalid password_reset_token_invalid : Error
  oauth_handoff_code_invalid email_already_taken incorrect_current_password : Error
  payment_method_not_found duplicate_payment_method : Error
  credentials_rejected not_admin not_verified notification_not_found : Error
  key_error type_error invalid_operation : Error
  email_already_registered email_already_verified incorrect_credentials : Error

pub data Result (A : Type 0) : Type 0 where
  ok : A → Result A
  err : Error → Result A

infixl 5 ◌>>=◌ ◌>>◌
abbrev pub ◌>>=◌ : {A B : Type 0} → Result A → (A → Result B) → Result B
ok a >>= f = f a
err e >>= f = err e

abbrev pub ◌>>◌ : {A : Type 0} → Result (Unit {0}) → Result A → Result A
m >> k = m >>= λ _. k

abbrev pub guard : Bool → Error → Result (Unit {0})
guard true e = ok tt
guard false e = err e

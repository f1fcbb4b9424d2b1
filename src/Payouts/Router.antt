-- ===== src/Payouts/Router.antt =====
-- app/modules/payouts/router.py: which failures of a payout are kept and which are rolled back.
use bridge_pay_backend.Common.{ℕ, Bool, true, false, List, Option}
use bridge_pay_backend.Common.Text.{Str}
use bridge_pay_backend.Errors.{
  Error, Result, account_not_found, mpesa_request_failed, airtel_request_failed,
  stripe_payout_failed,
}
use bridge_pay_backend.Outside.{Outside}
use bridge_pay_backend.Providers.{Reply}
use bridge_pay_backend.Schema.{User, Payout}
use bridge_pay_backend.Session.{Action, pure, raise, option_case, endpoint, ◌>>=◌}
use bridge_pay_backend.Accounts.{get_by_user_id}
use bridge_pay_backend.Core.Dependencies.{get_current_verified_user}
use bridge_pay_backend.Payouts.{list_for_user}
use bridge_pay_backend.Payouts.Mobile.{create_mpesa_payout, create_airtel_payout}
use bridge_pay_backend.Payouts.Stripe.{
  PayoutResult, create_stripe_card_payout, create_bank_account_payout,
}

-- `_get_own_account_id`
unfoldable pub get_own_account_id : User → Action ℕ
get_own_account_id user = do
  account ← get_by_user_id user.id
  option_case account (raise account_not_found) (λ a. pure a.id)

-- The errors behind which a route commits: the money is back already.
unfoldable pub is_reversal : Error → Bool
is_reversal (mpesa_request_failed _) = true
is_reversal (airtel_request_failed _) = true
is_reversal (stripe_payout_failed _) = true
is_reversal _ = false

-- `list_my_payouts`: a page of them, and how many there are.
unfoldable pub list_my_payouts : Option ℕ → ℕ → ℕ → Action (List Payout × ℕ)
list_my_payouts subject page page_size = do
  current_user ← get_current_verified_user subject
  list_for_user current_user.id page page_size

module _ (o : Outside) (subject : Option ℕ) where
  -- Who asks, and from which account.
  unfoldable pub as_owner : (User → ℕ → Action Payout) → Action Payout
  as_owner act = endpoint is_reversal do
    current_user ← get_current_verified_user subject
    account_id ← get_own_account_id current_user
    act current_user account_id

  unfoldable pub payout_via_mpesa : Reply → Str → Str → ℕ → Option Str → Action Payout
  payout_via_mpesa reply phone_number recipient_email amount idempotency_key =
      as_owner λ user account_id.
        create_mpesa_payout o reply user account_id phone_number recipient_email amount
          idempotency_key

  unfoldable pub payout_via_airtel : Reply → Str → Str → ℕ → Option Str → Action Payout
  payout_via_airtel reply phone_number recipient_email amount idempotency_key =
      as_owner λ user account_id.
        create_airtel_payout o reply user account_id phone_number recipient_email amount
          idempotency_key

  unfoldable pub payout_via_stripe_card :
      Result PayoutResult → Str → Str → ℕ → Str → Option Str → Action Payout
  payout_via_stripe_card reply card_token recipient_email amount currency idempotency_key =
      as_owner λ user account_id.
        create_stripe_card_payout o reply user account_id card_token recipient_email amount currency
          idempotency_key

  unfoldable pub payout_via_bank_account :
      Result PayoutResult → Str → Str → Str → ℕ → Str → Option Str → Action Payout
  payout_via_bank_account reply bank_account_token country recipient_email amount currency
        idempotency_key =
      as_owner λ user account_id.
        create_bank_account_payout o reply user account_id bank_account_token country
          recipient_email amount currency idempotency_key

-- ===== src/Deposits/Router.antt =====
-- app/modules/deposits/router.py: an unverified user may deposit, and every failure is rolled back.
use bridge_pay_backend.Common.{ℕ, false, List, Option}
use bridge_pay_backend.Common.Text.{Str}
use bridge_pay_backend.Errors.{account_not_found}
use bridge_pay_backend.Outside.{Outside}
use bridge_pay_backend.Providers.{Reply}
use bridge_pay_backend.Schema.{User, Deposit}
use bridge_pay_backend.Session.{Action, pure, raise, option_case, endpoint, ◌>>=◌}
use bridge_pay_backend.Accounts.{get_by_user_id}
use bridge_pay_backend.Core.Dependencies.{get_current_user}
use bridge_pay_backend.Deposits.{list_for_user}
use bridge_pay_backend.Deposits.Intake.{
  StripeReplies, create_stripe_deposit, create_mpesa_deposit, create_airtel_deposit,
}

-- `_get_own_account_id`
unfoldable pub get_own_account_id : User → Action ℕ
get_own_account_id user = do
  account ← get_by_user_id user.id
  option_case account (raise account_not_found) (λ a. pure a.id)

-- `list_my_deposits`: a page of them, and how many there are.
unfoldable pub list_my_deposits : Option ℕ → ℕ → ℕ → Action (List Deposit × ℕ)
list_my_deposits subject page page_size = do
  current_user ← get_current_user subject
  list_for_user current_user.id page page_size

module _ (subject : Option ℕ) where
  -- Who asks, and for which account.
  unfoldable pub as_owner : {A : Type 0} → (User → ℕ → Action A) → Action A
  as_owner act =
      endpoint (λ e. false)
        do
          current_user ← get_current_user subject
          account_id ← get_own_account_id current_user
          act current_user account_id

  unfoldable pub deposit_via_stripe : StripeReplies → ℕ → Str → Option Str → Action (Str × ℕ)
  deposit_via_stripe stripe amount currency idempotency_key = as_owner λ user account_id.
      create_stripe_deposit stripe user account_id amount currency idempotency_key

  unfoldable pub deposit_via_mpesa : Outside → Reply → Str → ℕ → Option Str → Action ℕ
  deposit_via_mpesa o reply phone_number amount idempotency_key = as_owner λ user account_id.
      create_mpesa_deposit o reply user account_id phone_number amount idempotency_key

  unfoldable pub deposit_via_airtel : Outside → Reply → Str → ℕ → Option Str → Action ℕ
  deposit_via_airtel o reply phone_number amount idempotency_key = as_owner λ user account_id.
      create_airtel_deposit o reply user account_id phone_number amount idempotency_key

-- ===== src/PaymentMethods/Router.antt =====
-- app/modules/payment_methods/router.py: every failure is rolled back.
use bridge_pay_backend.Common.{ℕ, Bool, false, List, Option}
use bridge_pay_backend.Common.Text.{Str}
use bridge_pay_backend.Core.Dependencies.{get_current_user}
use bridge_pay_backend.Errors.{Result, payment_method_not_found}
use bridge_pay_backend.Schema.{User, PaymentMethod}
use bridge_pay_backend.Session.{Action, raise, option_case, endpoint, ◌>>=◌}
use bridge_pay_backend.PaymentMethods.{
  list_for_user, create_stripe_setup_intent, confirm_stripe_card, link_mpesa_number,
  delete_payment_method,
}

module _ (subject : Option ℕ) where
  -- The dependency, and the session.
  unfoldable pub as_user : {A : Type 0} → (User → Action A) → Action A
  as_user act = endpoint (λ e. false) (get_current_user subject >>= act)

  unfoldable pub list_payment_methods : Action (List PaymentMethod)
  list_payment_methods = as_user λ user. list_for_user user.id

  unfoldable pub start_stripe_card_link : Result Str → Result Str → Action Str
  start_stripe_card_link customer client_secret =
      as_user λ user. create_stripe_setup_intent customer client_secret user

  unfoldable pub confirm_stripe_card_link :
      Result Str → Result (Option Str) → Result (Unit {0}) → Str → Bool → Action PaymentMethod
  confirm_stripe_card_link customer owner attached payment_method_id set_as_default =
      as_user
        λ user. confirm_stripe_card customer owner attached user payment_method_id set_as_default

  unfoldable pub link_mpesa : Str → Bool → Action PaymentMethod
  link_mpesa phone_number set_as_default =
      as_user λ user. link_mpesa_number user phone_number set_as_default

  -- The id is none where `uuid.UUID` refuses the text.
  unfoldable pub unlink_payment_method : Result (Unit {0}) → Option ℕ → Action (Unit {0})
  unlink_payment_method detached method_id = as_user λ user.
      option_case method_id (raise payment_method_not_found) (delete_payment_method detached user)

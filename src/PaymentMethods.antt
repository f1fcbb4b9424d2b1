-- ===== src/PaymentMethods.antt =====
-- app/modules/payment_methods (service.py, repository.py). What Stripe answers is an argument: the id of a
-- new customer, the customer a card is attached to. Masked details are prose, and left out.
pub mod Router
pub mod Default
use bridge_pay_backend.Common.{
  ℕ, Bool, true, false, not, ◌&&◌, List, [], ◌∷◌, Option, none, some, ◌==◌, if◌then◌else◌,
}
use bridge_pay_backend.Common.Table.{select, update, any}
use bridge_pay_backend.Common.Text.{Str, str_eq, is_given}
use bridge_pay_backend.Core.Phone.{normalize_mpesa}
use bridge_pay_backend.Errors.{
  Error, Result, ok, err, payment_method_not_found, duplicate_payment_method, stripe_error,
}
use bridge_pay_backend.Providers.{checked_phone}
use bridge_pay_backend.Schema.{User, PaymentMethod, PaymentMethodType, Provider}
use bridge_pay_backend.Session.{
  Action, pure, raise, lift, gets, raise_if, modify, fresh_id, option_case, catch, ◌>>=◌, ◌>>◌,
  scalar_one_or_none,
}
use bridge_pay_backend.Users.{change_row}

abbrev pub of_user : ℕ → PaymentMethod → Bool
of_user user_id m = m.user_id == user_id

-- `PaymentMethodRepository.list_for_user`
unfoldable pub list_for_user : ℕ → Action (List PaymentMethod)
list_for_user user_id = gets (λ s. select (of_user user_id) s.payment_methods)

-- `PaymentMethodRepository.get_by_id_for_user`
unfoldable pub get_by_id_for_user : ℕ → ℕ → Action (Option PaymentMethod)
get_by_id_for_user method_id user_id = do
  rows ← gets (λ s. select (λ m. (m.id == method_id) && of_user user_id m) s.payment_methods)
  lift (scalar_one_or_none rows)

-- `PaymentMethodRepository.create`
unfoldable pub create : ℕ → Provider → PaymentMethodType → Str → Bool → Action PaymentMethod
create user_id provider type external_reference is_default = do
  id ← fresh_id
  let method : PaymentMethod = record {
    id = id;
    user_id = user_id;
    provider = provider;
    type = type;
    external_reference = external_reference;
    is_default = is_default;
  }
  modify (λ s. record s { payment_methods = method ∷ s.payment_methods })
  pure method

-- `PaymentMethodRepository.unset_default_for_user`
unfoldable pub unset_default_for_user : ℕ → Action (Unit {0})
unset_default_for_user user_id = modify (λ s. record s {
  payment_methods =
      update (of_user user_id) (λ m. record m { is_default = false }) s.payment_methods;
})

-- `PaymentMethodRepository.delete`
unfoldable pub delete : PaymentMethod → Action (Unit {0})
delete method =
    modify
      (λ s. record s { payment_methods = select (λ m. not (m.id == method.id)) s.payment_methods })

-- `ensure_stripe_customer`; `customer` is what `stripe.Customer.create` gives.
unfoldable pub new_stripe_customer : Result Str → User → Action Str
new_stripe_customer customer user = do
  id ← lift customer
  modify (change_row user.id (λ u. record u { stripe_customer_id = some id }))
  pure id

unfoldable pub ensure_stripe_customer : Result Str → User → Action Str
ensure_stripe_customer customer user =
    option_case user.stripe_customer_id (new_stripe_customer customer user)
      λ id. if is_given (some id) then pure id else new_stripe_customer customer user

-- `create_stripe_setup_intent`; `client_secret` is what `stripe.SetupIntent.create` gives.
unfoldable pub create_stripe_setup_intent : Result Str → Result Str → User → Action Str
create_stripe_setup_intent customer client_secret user =
    ensure_stripe_customer customer user >>= λ customer_id. lift client_secret

-- `if set_as_default: await repo.unset_default_for_user(user.id)`
unfoldable pub make_room : Bool → ℕ → Action (Unit {0})
make_room set_as_default user_id =
    if set_as_default then unset_default_for_user user_id else pure tt

-- `confirm_stripe_card`: `owner` is the retrieved card's customer, `attached` what attaching it gives.
unfoldable pub confirm_stripe_card :
    Result Str → Result (Option Str) → Result (Unit {0}) → User → Str → Bool → Action PaymentMethod
confirm_stripe_card customer owner attached user payment_method_id set_as_default = do
  pm_customer ← lift owner
  customer_id ← ensure_stripe_customer customer user
  option_case pm_customer (lift attached)
      λ other. raise_if (not (str_eq other customer_id)) payment_method_not_found
  make_room set_as_default user.id
  create user.id Provider.stripe PaymentMethodType.card payment_method_id set_as_default

unfoldable pub is_mpesa : Provider → Bool
is_mpesa Provider.mpesa = true
is_mpesa _ = false

unfoldable pub is_stripe : Provider → Bool
is_stripe Provider.stripe = true
is_stripe _ = false

-- `link_mpesa_number`
unfoldable pub link_mpesa_number : User → Str → Bool → Action PaymentMethod
link_mpesa_number user phone_number set_as_default = do
  normalized ← lift (checked_phone (normalize_mpesa phone_number))
  existing ← list_for_user user.id
  raise_if (any (λ m. is_mpesa m.provider && str_eq m.external_reference normalized) existing)
      duplicate_payment_method
  make_room set_as_default user.id
  create user.id Provider.mpesa PaymentMethodType.mobile_wallet normalized set_as_default

-- `except stripe.error.StripeError: pass`
unfoldable pub forgive_stripe : Error → Action (Unit {0})
forgive_stripe (stripe_error e) = pure tt
forgive_stripe e = raise e

-- `delete_payment_method`; `detached` is what `stripe.PaymentMethod.detach` gives.
unfoldable pub delete_payment_method : Result (Unit {0}) → User → ℕ → Action (Unit {0})
delete_payment_method detached user method_id = do
  found ← get_by_id_for_user method_id user.id
  option_case found (raise payment_method_not_found) λ method. do
    if is_stripe method.provider then catch (lift detached) forgive_stripe else pure tt
    delete method

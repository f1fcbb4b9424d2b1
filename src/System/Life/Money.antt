-- ===== src/System/Life/Money.antt =====
-- Proofs about the routes of transfers and deposits: they leave payouts alone.
use bridge_pay_backend.Common.{ℕ, suc, Bool, List, [], ◌∷◌, Option, none, some}
use bridge_pay_backend.Common.Text.{Str}
use bridge_pay_backend.Deposits.{
  create, change, set_conversion, mark_completed, mark_failed, get_by_external_reference,
  get_by_idempotency_key_for_user,
}
use bridge_pay_backend.Deposits.Callbacks.{
  with_pending, settle_deposit, handle_mpesa_stk_callback, handle_airtel_collection_callback,
  on_event, handle_stripe_webhook_event,
}
use bridge_pay_backend.Deposits.Credit.{
  fail, finish, credit_converted, after_conversion, credit_account_and_record,
}
use bridge_pay_backend.Deposits.Intake.{
  StripeReplies, find_existing, create_stripe_deposit, create_mpesa_deposit, create_airtel_deposit,
}
use bridge_pay_backend.Deposits.Router.{
  get_own_account_id, as_owner, deposit_via_stripe, deposit_via_mpesa, deposit_via_airtel,
}
use bridge_pay_backend.Errors.{
  Error, Result, ok, err, insufficient_funds, self_transfer, recipient_not_found, account_not_found,
  exchange_rate_unavailable,
}
use bridge_pay_backend.Json.{Json}
use bridge_pay_backend.Outside.{Outside}
use bridge_pay_backend.Payouts.Lifecycle.Steps.{Of}
use bridge_pay_backend.Providers.{Reply}
use bridge_pay_backend.Schema.{Payout, User, Account, Deposit, Decimal}
use bridge_pay_backend.Session.{Action}
use bridge_pay_backend.Session.Keeps.{Keeps, Keeps-raise, Keeps-pure, Keeps-bind, Leads-attempt}
use bridge_pay_backend.System.Life.People.{ensure_stripe_customer-Keeps}
use bridge_pay_backend.System.Life.Rules.{life_rules, kept_by_account}
use bridge_pay_backend.Transfers.{
  lock_all, lock_accounts_in_order, record_transfer, transfer_between, execute_transfer,
}
use bridge_pay_backend.Transfers.Router.{log_failure, tell_both, create_transfer}

module _ (F : List Payout → ℕ → Type 0)
    (next : (ps : List Payout) (n : ℕ) → F ps n → F ps (suc n)) where
  lock_all-Keeps : (ids : List ℕ) → Keeps (Of F) (lock_all ids)
  unfolding lock_all
  lock_all-Keeps [] = Keeps-pure _
  lock_all-Keeps (id ∷ ids) =
      Keeps-bind _ _ (kept_by_account F next id)
        λ account. Keeps-bind _ _ (lock_all-Keeps ids) λ rest. Keeps-pure _

  log_failure-Keeps : (user : User) (e : Error) → Keeps (Of F) (log_failure user e)
  unfolding log_failure
  log_failure-Keeps user insufficient_funds = search life_rules
  log_failure-Keeps user self_transfer = search life_rules
  log_failure-Keeps user recipient_not_found = search life_rules
  log_failure-Keeps user account_not_found = search life_rules
  log_failure-Keeps user _ = Keeps-raise _

  pub create_transfer-Keeps :
      (o : Outside) (who : Option ℕ) (email : Str) (amount : ℕ) (why : Option Str)
      → Keeps (Of F) (create_transfer o who email amount why)
  unfolding create_transfer tell_both execute_transfer transfer_between lock_accounts_in_order
      record_transfer
  create_transfer-Keeps o who email amount why =
      search (life_rules, log_failure-Keeps, lock_all-Keeps) depth 20

  fail-Keeps : (deposit : Deposit) (reason : Json) → Keeps (Of F) (fail deposit reason)
  unfolding fail mark_failed change
  fail-Keeps deposit reason = search life_rules depth 12

  module _ (o : Outside) where
    credit_converted-Keeps :
        (deposit : Deposit) (account : Account) (c : Decimal × Decimal)
        → Keeps (Of F) (credit_converted o deposit account c)
    unfolding credit_converted set_conversion change finish mark_completed
    credit_converted-Keeps deposit account (x, rate) = search life_rules depth 16

    after_conversion-Keeps :
        (deposit : Deposit) (account : Account) (r : Result (Decimal × Decimal))
        → Keeps (Of F) (after_conversion o deposit account r)
    unfolding after_conversion
    after_conversion-Keeps deposit account (ok c) = credit_converted-Keeps deposit account c
    after_conversion-Keeps deposit account (err (exchange_rate_unavailable e)) =
        fail-Keeps deposit _
    after_conversion-Keeps deposit account (err _) = Keeps-raise _

    credit-Keeps : (deposit : Deposit) → Keeps (Of F) (credit_account_and_record o deposit)
    unfolding credit_account_and_record
    credit-Keeps deposit = search (life_rules, after_conversion-Keeps, Leads-attempt) depth 12

    settle_deposit-Keeps :
        (success : Bool) (reason : Json) (deposit : Deposit)
        → Keeps (Of F) (settle_deposit o success reason deposit)
    unfolding settle_deposit
    settle_deposit-Keeps success reason deposit = search (life_rules, fail-Keeps, credit-Keeps)

    on_event-Keeps :
        (event_type pi_data : Json) (deposit : Deposit)
        → Keeps (Of F) (on_event o event_type pi_data deposit)
    unfolding on_event
    on_event-Keeps event_type pi_data deposit =
        search (life_rules, fail-Keeps, credit-Keeps) depth 10

  with_pending-Keeps :
      (reference : Json) (act : Deposit → Action (Unit {0}))
      → ((d : Deposit) → Keeps (Of F) (act d))
      → Keeps (Of F) (with_pending reference act)
  unfolding with_pending get_by_external_reference
  with_pending-Keeps reference act k = search life_rules depth 12

  module _ (o : Outside) where
    pub handle_mpesa_stk_callback-Keeps :
        (payload : Json) → Keeps (Of F) (handle_mpesa_stk_callback o payload)
    unfolding handle_mpesa_stk_callback
    handle_mpesa_stk_callback-Keeps payload =
        search (life_rules, with_pending-Keeps, settle_deposit-Keeps) depth 12

    pub handle_airtel_collection_callback-Keeps :
        (payload : Json) → Keeps (Of F) (handle_airtel_collection_callback o payload)
    unfolding handle_airtel_collection_callback
    handle_airtel_collection_callback-Keeps payload =
        search (life_rules, with_pending-Keeps, settle_deposit-Keeps) depth 12

    pub handle_stripe_webhook_event-Keeps :
        (event : Json) → Keeps (Of F) (handle_stripe_webhook_event o event)
    unfolding handle_stripe_webhook_event
    handle_stripe_webhook_event-Keeps event =
        search (life_rules, with_pending-Keeps, on_event-Keeps) depth 12

  find_existing-Keeps : (user_id : ℕ) (key : Option Str) → Keeps (Of F) (find_existing user_id key)
  unfolding find_existing get_by_idempotency_key_for_user
  find_existing-Keeps user_id none = search life_rules
  find_existing-Keeps user_id (some key) = search life_rules

  module _ (subject : Option ℕ) (amount : ℕ) (key : Option Str) where
    pub deposit_via_stripe-Keeps :
        (stripe : StripeReplies) (currency : Str)
        → Keeps (Of F) (deposit_via_stripe subject stripe amount currency key)
    unfolding deposit_via_stripe create_stripe_deposit as_owner get_own_account_id create
    deposit_via_stripe-Keeps stripe currency =
        search (life_rules, find_existing-Keeps, ensure_stripe_customer-Keeps F next) depth 20

    pub deposit_via_mpesa-Keeps :
        (o : Outside) (reply : Reply) (phone : Str)
        → Keeps (Of F) (deposit_via_mpesa subject o reply phone amount key)
    unfolding deposit_via_mpesa create_mpesa_deposit as_owner get_own_account_id create
    deposit_via_mpesa-Keeps o reply phone = search (life_rules, find_existing-Keeps) depth 20

    pub deposit_via_airtel-Keeps :
        (o : Outside) (reply : Reply) (phone : Str)
        → Keeps (Of F) (deposit_via_airtel subject o reply phone amount key)
    unfolding deposit_via_airtel create_airtel_deposit as_owner get_own_account_id create
    deposit_via_airtel-Keeps o reply phone = search (life_rules, find_existing-Keeps) depth 20

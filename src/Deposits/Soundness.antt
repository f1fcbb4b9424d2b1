-- ===== src/Deposits/Soundness.antt =====
-- Proofs about app/modules/deposits: the ledger under deposits.
use bridge_pay_backend.Common.{ℕ, Bool, Option, none, some, Bool-cases, inl, inr}
use bridge_pay_backend.Common.Text.{Str, str_eq, upper}
use bridge_pay_backend.Errors.{Result, ok, err, exchange_rate_unavailable}
use bridge_pay_backend.Json.{Json}
use bridge_pay_backend.Outside.{Outside, RoundsToNearest}
use bridge_pay_backend.PaymentMethods.{new_stripe_customer, ensure_stripe_customer}
use bridge_pay_backend.Providers.{Reply}
use bridge_pay_backend.Schema.{
  User, Account, Deposit, Transaction, Provider, ReferenceNote, Decimal,
}
use bridge_pay_backend.Session.{Action, ◌>>=◌}
use bridge_pay_backend.Session.Keeps.{
  Keeps, Leads, Leads-pre, Leads-bind, Leads-attempt, Keeps-raise,
}
use bridge_pay_backend.Session.Reads.{Leads-read}
use bridge_pay_backend.Accounts.{add_transaction}
use bridge_pay_backend.Accounts.Balance.{IsSound}
use bridge_pay_backend.Accounts.Locked.{
  IsRow, Reads-get_by_id_locked, row-IsSoundRow, row-IsAccount,
}
use bridge_pay_backend.Accounts.Movements.{deposit-IsSound}
use bridge_pay_backend.Core.Rates.Cache.{Keeps-convert}
use bridge_pay_backend.Deposits.{
  create, change, set_conversion, mark_completed, mark_failed, get_by_external_reference,
  get_by_idempotency_key_for_user,
}
use bridge_pay_backend.Deposits.Callbacks.{
  with_pending, settle_deposit, handle_mpesa_stk_callback, handle_airtel_collection_callback,
  on_event, handle_stripe_webhook_event,
}
use bridge_pay_backend.Deposits.Credit.{
  fail, finish, credit_converted, after_conversion, credit_account_and_record,
}
use bridge_pay_backend.Deposits.Intake.{
  StripeReplies, find_existing, create_stripe_deposit, create_mpesa_deposit, create_airtel_deposit,
}
use bridge_pay_backend.Deposits.Router.{
  get_own_account_id, as_owner, deposit_via_stripe, deposit_via_mpesa, deposit_via_airtel,
}
use bridge_pay_backend.Untouched.{sound_rules, Keeps-elsewhere}

Keeps-change : (f : Deposit → Deposit) (id : ℕ) → Keeps IsSound (change f id)
unfolding change
Keeps-change f id = Keeps-elsewhere _ (λ s h. h)

Keeps-fail : (deposit : Deposit) (reason : Json) → Keeps IsSound (fail deposit reason)
unfolding fail mark_failed
Keeps-fail deposit reason = search (sound_rules, Keeps-change) depth 10

Keeps-finish :
    (o : Outside) (deposit : Deposit) (t : Transaction) → Keeps IsSound (finish o deposit t)
unfolding finish mark_completed
Keeps-finish o deposit t = search (sound_rules, Keeps-change) depth 10

module _ (o : Outside) (nearest : RoundsToNearest o) where
  Leads-credit_converted :
      (deposit : Deposit) (account : Account) (x rate : Decimal)
      → Leads
          (λ s. IsSound s × IsRow account.id account s)
          IsSound
          (credit_converted o deposit account (x, rate))
  unfolding credit_converted set_conversion change add_transaction ◌>>=◌
  Leads-credit_converted deposit account x rate = record {
    at = λ s h.
        let same = str_eq (upper deposit.currency) (upper account.currency) in
        let sound =
          deposit-IsSound o nearest s.next_id account.id x account.currency
            (ReferenceNote.provider_deposit deposit.provider) s.accounts s.transactions
            (row-IsSoundRow account.id account s h.0 h.1).known
            (row-IsAccount account.id account s h.1) h.0 in
        elim (Bool-cases same) [
          | inl e ↦ rw e ((Keeps-finish o deposit _).at _ sound)
          | inr e ↦ rw e ((Keeps-finish o deposit _).at _ sound)
        ];
  }

  Leads-after_conversion :
      (deposit : Deposit) (account : Account) (r : Result (Decimal × Decimal))
      → Leads
          (λ s. IsSound s × IsRow account.id account s)
          IsSound
          (after_conversion o deposit account r)
  unfolding after_conversion
  Leads-after_conversion deposit account (ok (x, rate)) =
      Leads-credit_converted deposit account x rate
  Leads-after_conversion deposit account (err (exchange_rate_unavailable e)) =
      Leads-pre _ (λ s h. h.0) (Keeps-fail deposit _)
  Leads-after_conversion deposit account (err _) = Leads-pre _ (λ s h. h.0) (Keeps-raise _)

  -- The completion of a deposit keeps the ledger sound.
  pub credit_account_and_record-IsSound :
      (deposit : Deposit) → Keeps IsSound (credit_account_and_record o deposit)
  unfolding credit_account_and_record
  credit_account_and_record-IsSound deposit =
      Leads-read _ _ (Reads-get_by_id_locked deposit.account_id) (λ s h. h)
        (λ account.
          Leads-pre _ (λ s h. (h.0, h.1.1))
            (Leads-bind {R = λ s. IsSound s × IsRow account.id account s} (λ s h. h.0) _ _
              (Leads-attempt _ (Keeps-convert (λ s cache h. h) _ _ _ _ _))
              (Leads-after_conversion deposit account)))

  Keeps-settle_deposit :
      (success : Bool) (reason : Json) (deposit : Deposit)
      → Keeps IsSound (settle_deposit o success reason deposit)
  unfolding settle_deposit
  Keeps-settle_deposit success reason deposit =
      search (sound_rules, Keeps-fail, credit_account_and_record-IsSound)

  Keeps-on_event :
      (event_type pi_data : Json) (deposit : Deposit)
      → Keeps IsSound (on_event o event_type pi_data deposit)
  unfolding on_event
  Keeps-on_event event_type pi_data deposit =
      search (sound_rules, Keeps-fail, credit_account_and_record-IsSound) depth 10

  Keeps-with_pending :
      (reference : Json) (act : Deposit → Action (Unit {0}))
      → ((d : Deposit) → Keeps IsSound (act d))
      → Keeps IsSound (with_pending reference act)
  unfolding with_pending get_by_external_reference
  Keeps-with_pending reference act k = search sound_rules depth 12

  pub handle_mpesa_stk_callback-IsSound :
      (payload : Json) → Keeps IsSound (handle_mpesa_stk_callback o payload)
  unfolding handle_mpesa_stk_callback
  handle_mpesa_stk_callback-IsSound payload =
      search (sound_rules, Keeps-with_pending, Keeps-settle_deposit) depth 12

  pub handle_airtel_collection_callback-IsSound :
      (payload : Json) → Keeps IsSound (handle_airtel_collection_callback o payload)
  unfolding handle_airtel_collection_callback
  handle_airtel_collection_callback-IsSound payload =
      search (sound_rules, Keeps-with_pending, Keeps-settle_deposit) depth 12

  pub handle_stripe_webhook_event-IsSound :
      (event : Json) → Keeps IsSound (handle_stripe_webhook_event o event)
  unfolding handle_stripe_webhook_event
  handle_stripe_webhook_event-IsSound event =
      search (sound_rules, Keeps-with_pending, Keeps-on_event) depth 12

Keeps-create :
    (user_id account_id : ℕ) (provider : Provider) (amount : ℕ) (currency reference : Str)
    (key : Option Str)
    → Keeps IsSound (create user_id account_id provider amount currency reference key)
unfolding create
Keeps-create user_id account_id provider amount currency reference key =
    search (sound_rules, Keeps-elsewhere) depth 12

Keeps-find_existing : (user_id : ℕ) (key : Option Str) → Keeps IsSound (find_existing user_id key)
unfolding find_existing get_by_idempotency_key_for_user
Keeps-find_existing user_id none = search sound_rules
Keeps-find_existing user_id (some key) = search sound_rules

pub Keeps-ensure_stripe_customer :
    (customer : Result Str) (user : User) → Keeps IsSound (ensure_stripe_customer customer user)
unfolding ensure_stripe_customer new_stripe_customer
Keeps-ensure_stripe_customer customer user = search (sound_rules, Keeps-elsewhere) depth 12

Keeps-get_own_account_id : (user : User) → Keeps IsSound (get_own_account_id user)
unfolding get_own_account_id
Keeps-get_own_account_id user = search sound_rules

Keeps-as_owner :
    {A : Type 0} (subject : Option ℕ) (act : User → ℕ → Action A)
    → ((user : User) (id : ℕ) → Keeps IsSound (act user id))
    → Keeps IsSound (as_owner subject act)
unfolding as_owner
Keeps-as_owner subject act k = search (sound_rules, Keeps-get_own_account_id) depth 12

ruleset intake_rules =
    (sound_rules, Keeps-create, Keeps-find_existing, Keeps-ensure_stripe_customer)

module _ (subject : Option ℕ) (amount : ℕ) (key : Option Str) where
  pub deposit_via_stripe-IsSound :
      (stripe : StripeReplies) (currency : Str)
      → Keeps IsSound (deposit_via_stripe subject stripe amount currency key)
  unfolding deposit_via_stripe create_stripe_deposit
  deposit_via_stripe-IsSound stripe currency =
      Keeps-as_owner subject _ (λ user id. search intake_rules depth 12)

  pub deposit_via_mpesa-IsSound :
      (o : Outside) (reply : Reply) (phone : Str)
      → Keeps IsSound (deposit_via_mpesa subject o reply phone amount key)
  unfolding deposit_via_mpesa create_mpesa_deposit
  deposit_via_mpesa-IsSound o reply phone =
      Keeps-as_owner subject _ (λ user id. search intake_rules depth 12)

  pub deposit_via_airtel-IsSound :
      (o : Outside) (reply : Reply) (phone : Str)
      → Keeps IsSound (deposit_via_airtel subject o reply phone amount key)
  unfolding deposit_via_airtel create_airtel_deposit
  deposit_via_airtel-IsSound o reply phone =
      Keeps-as_owner subject _ (λ user id. search intake_rules depth 12)

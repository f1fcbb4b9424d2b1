-- ===== src/Payouts/Soundness.antt =====
-- Proofs about app/modules/payouts/service.py: the ledger under a deduction and a reversal.
use bridge_pay_backend.Common.{ℕ, Option}
use bridge_pay_backend.Common.Text.{Str}
use bridge_pay_backend.Errors.{
  Error, mpesa_request_failed, airtel_request_failed, stripe_error, runtime_error, http_error,
}
use bridge_pay_backend.Json.{Json, str}
use bridge_pay_backend.Outside.{Outside, RoundsToNearest}
use bridge_pay_backend.Schema.{Payout, Provider, Decimal}
use bridge_pay_backend.Session.{raise, ◌>>◌}
use bridge_pay_backend.Session.Keeps.{
  Keeps-raise_if, Keeps, Keeps-bind, Leads-bind, Leads-pre, Leads-guard, Keeps-pure, Keeps-raise,
  Leads-pure,
}
use bridge_pay_backend.Session.Reads.{Leads-read}
use bridge_pay_backend.Accounts.Balance.{IsSound}
use bridge_pay_backend.Accounts.Locked.{
  IsRow, Reads-get_by_id_locked, Leads-withdraw, Leads-deposit, Keeps-fresh_id,
}
use bridge_pay_backend.Core.Rates.Cache.{Keeps-convert}
use bridge_pay_backend.Payouts.{
  create, change, set_external_reference, mark_completed, mark_reversed,
}
use bridge_pay_backend.Payouts.Wallet.{
  deduct_balance_and_record, amount_to_credit, reverse_deduction, complete,
}
use bridge_pay_backend.Payouts.Mobile.{reverse_mpesa, reverse_airtel}
use bridge_pay_backend.Payouts.Stripe.{reverse_stripe}
use bridge_pay_backend.Untouched.{sound_rules, Keeps-elsewhere, Keeps-get_user, Keeps-notify}

Keeps-change : (f : Payout → Payout) (p : Payout) → Keeps IsSound (change f p)
unfolding change
Keeps-change f p = Keeps-bind _ _ (Keeps-elsewhere _ (λ s h. h)) (λ _. Keeps-pure _)

pub Keeps-create :
    (o : Outside) (user_id account_id : ℕ) (provider : Provider) (to email : Str) (amount : ℕ)
    (currency : Str) (key : Option Str) (rate converted : Option Decimal) (t : Option ℕ)
    → Keeps IsSound
        (create o user_id account_id provider to email amount currency key rate converted t)
unfolding create
Keeps-create o user_id account_id provider to email amount currency key rate converted t =
    Keeps-bind _ _ (Keeps-raise_if _ _) (λ _.
      Keeps-bind _ _ Keeps-fresh_id
        (λ id. Keeps-bind _ _ (Keeps-elsewhere _ (λ s h. h)) (λ _. Keeps-pure _)))

pub Keeps-set_external_reference :
    (p : Payout) (r : Str) → Keeps IsSound (set_external_reference p r)
unfolding set_external_reference
Keeps-set_external_reference p r = search (sound_rules, Keeps-change)

Keeps-mark_reversed : (p : Payout) (reason : Json) → Keeps IsSound (mark_reversed p reason)
unfolding mark_reversed
Keeps-mark_reversed p reason = search (sound_rules, Keeps-change)

module _ (o : Outside) where
  pub Keeps-complete : (p : Payout) (t : Option ℕ) → Keeps IsSound (complete o p t)
  unfolding complete mark_completed
  Keeps-complete p t = search (sound_rules, Keeps-change) depth 10

  module _ (nearest : RoundsToNearest o) where
    -- A payout's deduction keeps the ledger sound.
    pub deduct_balance_and_record-IsSound :
        (account_id amount : ℕ) (currency : Str)
        → Keeps IsSound (deduct_balance_and_record o account_id amount currency)
    unfolding deduct_balance_and_record
    deduct_balance_and_record-IsSound account_id amount currency =
        Leads-read _ _ (Reads-get_by_id_locked account_id) (λ s h. h)
          (λ account.
            Leads-pre _ (λ s h. (h.0, h.1.1))
              (Leads-bind {R = λ s. IsSound s × IsRow account.id account s} (λ s h. h.0) _ _
                (Keeps-convert (λ s cache h. h) _ _ _ _ _)
                (λ c.
                  Leads-guard _ _ _ (λ s h. h.0)
                    (λ covered.
                      Leads-withdraw o nearest account c.0 account.currency _ _ covered
                        (λ t. Leads-pure (λ s h. h) _)))))

    -- So does a reversal.
    pub reverse_deduction-IsSound :
        (p : Payout) (reason : Json) → Keeps IsSound (reverse_deduction o p reason)
    unfolding reverse_deduction
    reverse_deduction-IsSound p reason =
        Leads-read _ _ (Reads-get_by_id_locked p.account_id) (λ s h. h)
          (λ account.
            Leads-pre _ (λ s h. (h.0, h.1.1))
              (Leads-deposit o nearest account (amount_to_credit p) account.currency _ _
                (λ t. search (sound_rules, Keeps-mark_reversed) depth 12)))

  module _ (nearest : RoundsToNearest o) where
    Keeps-reversal :
        (p : Payout) (reason : Json) (e : Error)
        → Keeps IsSound (reverse_deduction o p reason >> raise {A = Payout} e)
    Keeps-reversal p reason e = search (sound_rules, reverse_deduction-IsSound nearest)

    pub Keeps-reverse_mpesa : (p : Payout) (e : Error) → Keeps IsSound (reverse_mpesa o p e)
    unfolding reverse_mpesa
    Keeps-reverse_mpesa p (mpesa_request_failed e) = Keeps-reversal p (str e) _
    Keeps-reverse_mpesa p (runtime_error e) = Keeps-reversal p (str e) _
    Keeps-reverse_mpesa p (http_error e) = Keeps-reversal p (str e) _
    Keeps-reverse_mpesa p _ = Keeps-raise _

    pub Keeps-reverse_airtel : (p : Payout) (e : Error) → Keeps IsSound (reverse_airtel o p e)
    unfolding reverse_airtel
    Keeps-reverse_airtel p (airtel_request_failed e) = Keeps-reversal p (str e) _
    Keeps-reverse_airtel p (runtime_error e) = Keeps-reversal p (str e) _
    Keeps-reverse_airtel p (http_error e) = Keeps-reversal p (str e) _
    Keeps-reverse_airtel p _ = Keeps-raise _

    pub Keeps-reverse_stripe : (p : Payout) (e : Error) → Keeps IsSound (reverse_stripe o p e)
    unfolding reverse_stripe
    Keeps-reverse_stripe p (stripe_error e) = Keeps-reversal p (str e) _
    Keeps-reverse_stripe p _ = Keeps-raise _

pub ruleset payout_rules = (
  sound_rules, Keeps-set_external_reference, Keeps-complete, Keeps-create,
  deduct_balance_and_record-IsSound, reverse_deduction-IsSound, Keeps-reverse_mpesa,
  Keeps-reverse_airtel, Keeps-reverse_stripe,
)

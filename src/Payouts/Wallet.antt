-- ===== src/Payouts/Wallet.antt =====
-- app/modules/payouts/service.py: the money of a payout leaves the account before the provider is asked, and
-- comes back if the payout fails.
use bridge_pay_backend.Common.{ℕ, Bool, not, Option, none, some}
use bridge_pay_backend.Common.Text.{Str, str_eq, upper}
use bridge_pay_backend.Errors.{insufficient_funds}
use bridge_pay_backend.Json.{Json}
use bridge_pay_backend.Outside.{Outside}
use bridge_pay_backend.Schema.{
  Payout, TransactionType, ReferenceNote, NotificationType, Decimal, of_cents,
}
use bridge_pay_backend.Session.{Action, pure, raise_if, modify, ◌>>=◌, ◌>>◌}
use bridge_pay_backend.Accounts.{get_by_id_locked, credit_row, debit_row, is_short, add_transaction}
use bridge_pay_backend.Core.Rates.{convert}
use bridge_pay_backend.Notifications.{notify}
use bridge_pay_backend.Payouts.{mark_reversed, mark_completed}
use bridge_pay_backend.Users.{get_user}

-- What `_deduct_balance_and_record` returns.
pub record Deduction : Type 0 where
  pub converted_amount : Decimal
  pub exchange_rate : Decimal
  pub account_currency : Str
  pub transaction_id : ℕ

-- `_deduct_balance_and_record`
unfoldable pub deduct_balance_and_record : Outside → ℕ → ℕ → Str → Action Deduction
deduct_balance_and_record o account_id amount currency = do
  account ← get_by_id_locked account_id
  (converted_amount, exchange_rate) ← convert o.now o.feed amount currency account.currency
  raise_if (is_short account converted_amount) insufficient_funds
  modify (debit_row o account.id converted_amount)
  transaction ←
      add_transaction o (some account.id) none converted_amount account.currency
        TransactionType.withdrawal ReferenceNote.external_payout
  pure record {
    converted_amount = converted_amount;
    exchange_rate = exchange_rate;
    account_currency = account.currency;
    transaction_id = transaction.id;
  }

-- `payout.converted_amount if payout.converted_amount is not None else payout.amount`
unfoldable pub amount_to_credit : Payout → Decimal
amount_to_credit p = elim p.converted_amount [ none ↦ of_cents p.amount | some x ↦ x ]

-- `_reverse_deduction`
unfoldable pub reverse_deduction : Outside → Payout → Json → Action Payout
reverse_deduction o payout reason = do
  account ← get_by_id_locked payout.account_id
  modify (credit_row o account.id (amount_to_credit payout))
  reversal_transaction ←
      add_transaction o none (some account.id) (amount_to_credit payout) account.currency
        TransactionType.deposit (ReferenceNote.reversal_of_payout payout.id)
  reversed ← mark_reversed payout reason
  user ← get_user payout.user_id
  notify payout.user_id NotificationType.payout_reversed (some reversal_transaction.id)
  pure reversed

-- `conversion_happened`
unfoldable pub conversion_happened : Str → Str → Bool
conversion_happened currency account_currency =
    not (str_eq (upper currency) (upper account_currency))

-- `mark_completed` and the notification that every provider's success ends in.
unfoldable pub complete : Outside → Payout → Option ℕ → Action Payout
complete o payout transaction_id = do
  payout ← mark_completed o payout
  user ← get_user payout.user_id
  notify payout.user_id NotificationType.payout_sent transaction_id
  pure payout

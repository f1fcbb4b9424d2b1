-- ===== src/Deposits/Credit.antt =====
-- app/modules/deposits/service.py: the completion of a deposit, once a webhook confirms it.
use bridge_pay_backend.Common.{not, none, some, ◌++◌, if◌then◌else◌}
use bridge_pay_backend.Common.Text.{codes, str_eq, upper}
use bridge_pay_backend.Errors.{Result, ok, err, exchange_rate_unavailable}
use bridge_pay_backend.Json.{Json, str}
use bridge_pay_backend.Outside.{Outside}
use bridge_pay_backend.Schema.{
  Account, Deposit, Transaction, TransactionType, ReferenceNote, NotificationType, Decimal,
}
use bridge_pay_backend.Session.{Action, pure, raise, modify, attempt, ◌>>=◌, ◌>>◌}
use bridge_pay_backend.Accounts.{get_by_id_locked, credit_row, add_transaction}
use bridge_pay_backend.Core.Rates.{convert}
use bridge_pay_backend.Deposits.{set_conversion, mark_completed, mark_failed}
use bridge_pay_backend.Notifications.{notify}
use bridge_pay_backend.Users.{get_user}

-- `mark_failed` and the notification that follows it everywhere
unfoldable pub fail : Deposit → Json → Action (Unit {0})
fail deposit reason = do
  mark_failed deposit.id reason
  user ← get_user deposit.user_id
  notify deposit.user_id NotificationType.deposit_failed none

module _ (o : Outside) where
  -- `mark_completed` and the notification
  unfoldable pub finish : Deposit → Transaction → Action (Unit {0})
  finish deposit transaction = do
    mark_completed o deposit.id
    user ← get_user deposit.user_id
    notify deposit.user_id NotificationType.deposit_completed (some transaction.id)

  -- The credit, behind the conversion.
  unfoldable pub credit_converted : Deposit → Account → Decimal × Decimal → Action (Unit {0})
  credit_converted deposit account (converted_amount, exchange_rate) = do
    modify (credit_row o account.id converted_amount)
    if not (str_eq (upper deposit.currency) (upper account.currency))
        then set_conversion o deposit.id exchange_rate converted_amount
        else pure tt
    transaction ←
        add_transaction o none (some account.id) converted_amount account.currency
          TransactionType.deposit (ReferenceNote.provider_deposit deposit.provider)
    finish deposit transaction

  -- The `try` and `except` round the conversion.
  unfoldable pub after_conversion :
      Deposit → Account → Result (Decimal × Decimal) → Action (Unit {0})
  after_conversion deposit account (ok converted) = credit_converted deposit account converted
  after_conversion deposit account (err (exchange_rate_unavailable e)) =
      fail deposit (str (codes "Currency conversion failed: " ++ e))
  after_conversion deposit account (err e) = raise e

  -- `_credit_account_and_record`
  unfoldable pub credit_account_and_record : Deposit → Action (Unit {0})
  credit_account_and_record deposit = do
    account ← get_by_id_locked deposit.account_id
    converted ← attempt (convert o.now o.feed deposit.amount deposit.currency account.currency)
    after_conversion deposit account converted

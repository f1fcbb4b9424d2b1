-- ===== src/Deposits/Effect.antt =====
-- Proofs about `_credit_account_and_record` of app/modules/deposits/service.py.
use bridge_pay_backend.Common.{◌≡◌, ◌∙◌, refl, ap, [], ◌∷◌, none, some, ◌==◌, ==_refl}
use bridge_pay_backend.Common.Int.{pos, ◌+ℤ◌}
use bridge_pay_backend.Common.Table.{select, update, select-update}
use bridge_pay_backend.Common.Text.{upper, str_eq_refl}
use bridge_pay_backend.Core.Rates.Cache.{convert_same_currency}
use bridge_pay_backend.Errors.{ok}
use bridge_pay_backend.Notifications.{notify}
use bridge_pay_backend.Outside.{Outside, RoundsToNearest}
use bridge_pay_backend.Schema.{User, Account, Db, Deposit, TransactionType, ReferenceNote, of_cents}
use bridge_pay_backend.Session.{◌>>=◌, attempt, scalar_one}
use bridge_pay_backend.Accounts.{has_id, get_by_id_locked, credit, entry, add_transaction}
use bridge_pay_backend.Accounts.Balance.{to_cents_exact, rounded-add}
use bridge_pay_backend.Deposits.{change, completed, mark_completed}
use bridge_pay_backend.Deposits.Credit.{
  finish, credit_converted, after_conversion, credit_account_and_record,
}
use bridge_pay_backend.Users

module _ (o : Outside) (nearest : RoundsToNearest o) (d : Deposit) (a : Account) (u : User)
    (s : Db) where
  -- The confirmation of a deposit in the account's own currency, with one row for the account and one for the
  -- user, goes through where the database rounds to a nearest cent: the balance rises by the amount, exactly,
  -- one transaction is added, and the deposit's row is marked completed.
  pub credit_account_and_record_credits :
      select (has_id d.account_id) s.accounts ≡ a ∷ []
      → upper d.currency ≡ upper a.currency
      → select (Users.has_id d.user_id) s.users ≡ u ∷ []
      → let (r, s') = credit_account_and_record o d s in
        (r ≡ ok tt)
        × (select (has_id d.account_id) s'.accounts
            ≡ record a { balance = a.balance +ℤ pos d.amount } ∷ [])
        × (s'.transactions
            ≡ entry s.next_id none
                (some a.id)
                d.amount
                a.currency
                TransactionType.deposit
                (ReferenceNote.provider_deposit d.provider)
              ∷ s.transactions)
        × (s'.deposits ≡ update (λ e. e.id == d.id) (completed o.now) s.deposits)
  unfolding credit_account_and_record after_conversion credit_converted finish mark_completed change
      notify get_by_id_locked add_transaction attempt Users.get_user scalar_one ◌>>=◌ credit update
  credit_account_and_record_credits row same user = rw row (
      rw (convert_same_currency o.now o.feed d.amount d.currency a.currency s same) (
        rw (same, str_eq_refl (upper a.currency))
          (rw (user, to_cents_exact o nearest d.amount)
            (
              refl,
              select-update (has_id d.account_id) (has_id a.id) (credit o (of_cents d.amount))
                    (λ b. refl) s.accounts
                  ∙ rw row (
                      rw (==_refl a.id) (
                        ap (λ b. record a { balance = b } ∷ [])
                          (rounded-add o nearest a.balance d.amount))),
              refl,
              refl,
            ))))

-- ===== src/Accounts.antt =====
-- app/modules/accounts (repository.py, service.py), and the ledger rows that money movements write.
-- An Account object is its row, so `account.balance -= x` changes the row with that id.
pub mod Balance
pub mod Movements
pub mod Transit
pub mod Locked
pub mod Opening
pub mod Router
use bridge_pay_backend.Common.{ℕ, suc, Bool, ◌∷◌, Option, ◌==◌, leb}
use bridge_pay_backend.Common.Int.{ℤ, pos, negsuc, ◌+ℤ◌, ◌-ℤ◌, ltb_ℤ}
use bridge_pay_backend.Outside.{Outside}
use bridge_pay_backend.Common.Table.{select, update, length}
use bridge_pay_backend.Common.Text.{Str, codes}
use bridge_pay_backend.Errors.{integrity_error, account_not_found}
use bridge_pay_backend.Schema.{
  Account, Transaction, TransactionStatus, TransactionType, ReferenceNote, Decimal, Db, of_cents,
}
use bridge_pay_backend.Session.{
  Action, pure, raise, lift, gets, raise_if, modify, fresh_id, option_case, ◌>>=◌, ◌>>◌, scalar_one,
  scalar_one_or_none,
}

abbrev pub of_user : ℕ → Account → Bool
of_user user_id a = a.user_id == user_id

abbrev pub has_id : ℕ → Account → Bool
has_id id a = a.id == id

-- `AccountRepository.get_by_user_id`
unfoldable pub get_by_user_id : ℕ → Action (Option Account)
get_by_user_id user_id = do
  rows ← gets (λ s. select (of_user user_id) s.accounts)
  lift (scalar_one_or_none rows)

-- `AccountRepository.get_by_id_locked`
unfoldable pub get_by_id_locked : ℕ → Action Account
get_by_id_locked account_id = do
  rows ← gets (λ s. select (has_id account_id) s.accounts)
  lift (scalar_one rows)

-- `AccountRepository.create`, with the balance 0.00 that every caller leaves it at; `user_id` is unique.
unfoldable pub create : ℕ → Action Account
create user_id = do
  rows ← gets (λ s. select (of_user user_id) s.accounts)
  raise_if (leb 1 (length rows)) integrity_error
  id ← fresh_id
  let account : Account = record {
    id = id;
    user_id = user_id;
    balance = pos 0;
    currency = codes "KES";
  }
  modify (λ s. record s { accounts = account ∷ s.accounts })
  pure account

-- `get_my_account`
unfoldable pub get_my_account : ℕ → Action Account
get_my_account user_id = do
  account ← get_by_user_id user_id
  option_case account (raise account_not_found) pure

-- A balance in cents as a signed Decimal.
unfoldable pub scale : ℤ → ℤ
scale (pos n) = pos (of_cents n)
scale (negsuc n) = pos 0 -ℤ pos (of_cents (suc n))

-- What the balance column keeps of a signed Decimal: a negative one is rounded by its magnitude.
unfoldable pub rounded : Outside → ℤ → ℤ
rounded o (pos x) = pos (o.to_cents x)
rounded o (negsuc x) = pos 0 -ℤ pos (o.to_cents (suc x))

-- `account.balance += x` and its flush
unfoldable pub credit : Outside → Decimal → Account → Account
unfolding scale rounded
credit o x a = record a { balance = rounded o (scale a.balance +ℤ pos x) }

-- `account.balance -= x` and its flush
unfoldable pub debit : Outside → Decimal → Account → Account
unfolding scale rounded
debit o x a = record a { balance = rounded o (scale a.balance -ℤ pos x) }

abbrev pub credit_row : Outside → ℕ → Decimal → Db → Db
credit_row o id x s = record s { accounts = update (has_id id) (credit o x) s.accounts }

abbrev pub debit_row : Outside → ℕ → Decimal → Db → Db
debit_row o id x s = record s { accounts = update (has_id id) (debit o x) s.accounts }

-- `account.balance < x`
unfoldable pub is_short : Account → Decimal → Bool
unfolding scale
is_short a x = ltb_ℤ (scale a.balance) (pos x)

-- `Transaction(...)`, completed as each is
abbrev pub entry : ℕ → Option ℕ → Option ℕ → ℕ → Str → TransactionType → ReferenceNote → Transaction
entry id from_id to_id amount currency type reference_note = record {
  id = id;
  from_account_id = from_id;
  to_account_id = to_id;
  amount = amount;
  currency = currency;
  status = TransactionStatus.completed;
  type = type;
  reference_note = reference_note;
}

-- `db.add(transaction)` and the flush that gives it an id.
unfoldable pub add_transaction :
    Outside
    → Option ℕ
    → Option ℕ
    → Decimal
    → Str
    → TransactionType
    → ReferenceNote
    → Action Transaction
add_transaction o from_id to_id amount currency type reference_note = do
  id ← fresh_id
  let transaction : Transaction =
      entry id from_id to_id (o.to_cents amount) currency type reference_note
  modify (λ s. record s { transactions = transaction ∷ s.transactions })
  pure transaction

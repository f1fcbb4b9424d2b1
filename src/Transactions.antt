-- ===== src/Transactions.antt =====
-- app/modules/transactions (repository.py, service.py, router.py): an account's history, newest first.
pub mod Own
use bridge_pay_backend.Common.{ℕ, Bool, true, ◌||◌, List, Option, none, some, is_key}
use bridge_pay_backend.Common.Table.{select, length, paginate}
use bridge_pay_backend.Core.Dependencies.{get_current_user}
use bridge_pay_backend.Schema.{Transaction}
use bridge_pay_backend.Session.{Action, pure, gets, ◌>>=◌}
use bridge_pay_backend.Accounts.{get_my_account}

-- `or_(Transaction.from_account_id == account_id, Transaction.to_account_id == account_id)`
unfoldable pub involves : ℕ → Transaction → Bool
involves account_id t = is_key t.from_account_id account_id || is_key t.to_account_id account_id

-- `TransactionRepository._list_and_count`
unfoldable pub list_and_count : (Transaction → Bool) → ℕ → ℕ → Action (List Transaction × ℕ)
list_and_count condition page page_size = do
  rows ← gets (λ s. select condition s.transactions)
  pure (paginate page page_size rows, length rows)

-- `TransactionRepository.list_for_account`
unfoldable pub list_for_account : ℕ → ℕ → ℕ → Action (List Transaction × ℕ)
unfolding list_and_count involves
list_for_account account_id page page_size = list_and_count (involves account_id) page page_size

-- `TransactionRepository.list_all`: no account is no condition.
unfoldable pub list_all : ℕ → ℕ → Option ℕ → Action (List Transaction × ℕ)
unfolding list_and_count involves
list_all page page_size none = list_and_count (λ t. true) page page_size
list_all page page_size (some account_id) = list_and_count (involves account_id) page page_size

-- `list_my_transactions`
unfoldable pub list_my_transactions : ℕ → ℕ → ℕ → Action (List Transaction × ℕ)
list_my_transactions user_id page page_size = do
  account ← get_my_account user_id
  list_for_account account.id page page_size

-- `list_my_transactions_endpoint`
unfoldable pub list_own_transactions : Option ℕ → ℕ → ℕ → Action (List Transaction × ℕ)
list_own_transactions subject page page_size = do
  current_user ← get_current_user subject
  list_my_transactions current_user.id page page_size

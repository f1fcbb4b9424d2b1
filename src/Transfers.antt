-- ===== src/Transfers.antt =====
-- app/modules/transfers (service.py, repository.py, router.py).
pub mod Order
pub mod Soundness
pub mod Effect
pub mod Router
use bridge_pay_backend.Common.{ℕ, List, [], ◌∷◌, Option, some, ◌==◌, leb, if◌then◌else◌}
use bridge_pay_backend.Common.Text.{Str, str_eq}
use bridge_pay_backend.Errors.{
  Result, ok, err, self_transfer, recipient_not_found, account_not_found, insufficient_funds,
  key_error,
}
use bridge_pay_backend.Outside.{Outside}
use bridge_pay_backend.Schema.{User, Account, Transaction, TransactionType, ReferenceNote, of_cents}
use bridge_pay_backend.Session.{
  Action, pure, raise, lift, raise_if, modify, option_case, ◌>>=◌, ◌>>◌,
}
use bridge_pay_backend.Accounts.{
  get_by_user_id, get_by_id_locked, credit_row, debit_row, is_short, add_transaction,
}
use bridge_pay_backend.Users

-- `sorted(account_ids)`
unfoldable pub insert : ℕ → List ℕ → List ℕ
insert x [] = x ∷ []
insert x (y ∷ ys) = if leb x y then x ∷ y ∷ ys else y ∷ insert x ys

unfoldable pub sorted : List ℕ → List ℕ
unfolding insert
sorted [] = []
sorted (x ∷ xs) = insert x (sorted xs)

abbrev pub Locked : Type 0
Locked = List (ℕ × Account)

-- The loop of `lock_accounts_in_order` over ids that are sorted.
unfoldable pub lock_all : List ℕ → Action Locked
lock_all [] = pure []
lock_all (account_id ∷ ids) = do
  account ← get_by_id_locked account_id
  rest ← lock_all ids
  pure ((account_id, account) ∷ rest)

unfoldable pub lock_accounts_in_order : List ℕ → Action Locked
lock_accounts_in_order account_ids = lock_all (sorted account_ids)

-- `locked_accounts[account_id]`
unfoldable pub get_locked : ℕ → Locked → Result Account
get_locked id [] = err key_error
get_locked id ((j, account) ∷ rest) = if j == id then ok account else get_locked id rest

-- `TransferRepository.record_transfer`: the objects are rows, so each change is by id.
unfoldable pub record_transfer : Outside → Account → Account → ℕ → Option Str → Action Transaction
record_transfer o from_account to_account amount reference_note = do
  modify (debit_row o from_account.id (of_cents amount))
  modify (credit_row o to_account.id (of_cents amount))
  add_transaction o (some from_account.id) (some to_account.id) (of_cents amount)
      from_account.currency TransactionType.transfer (ReferenceNote.note reference_note)

-- The part of `execute_transfer` behind the account lookups.
unfoldable pub transfer_between : Outside → Account → Account → ℕ → Option Str → Action Transaction
transfer_between o from_account to_account amount reference_note = do
  locked ← lock_accounts_in_order (from_account.id ∷ to_account.id ∷ [])
  from_locked ← lift (get_locked from_account.id locked)
  to_locked ← lift (get_locked to_account.id locked)
  raise_if (is_short from_locked (of_cents amount)) insufficient_funds
  record_transfer o from_locked to_locked amount reference_note

unfoldable pub execute_transfer : Outside → User → Str → ℕ → Option Str → Action Transaction
execute_transfer o from_user to_email amount reference_note = do
  raise_if (str_eq from_user.email to_email) self_transfer
  to_user ← Users.get_by_email to_email
  option_case to_user (raise recipient_not_found) λ to_user. do
    from_account ← get_by_user_id from_user.id
    to_account ← get_by_user_id to_user.id
    option_case from_account (raise account_not_found) λ from_account.
        option_case to_account (raise account_not_found)
          λ to_account. transfer_between o from_account to_account amount reference_note

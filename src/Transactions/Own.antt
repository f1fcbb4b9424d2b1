-- ===== src/Transactions/Own.antt =====
-- Proofs about app/modules/transactions/service.py: what a user sees.
use bridge_pay_backend.Common.{ℕ, zero, suc, ◌≡◌, refl, true, List, [], ◌∷◌}
use bridge_pay_backend.Common.Table.{select, take, drop, paginate, length, All, All-passes}
use bridge_pay_backend.Errors.{ok}
use bridge_pay_backend.Schema.{Account, Transaction, Db}
use bridge_pay_backend.Session.{◌>>=◌, scalar_one_or_none}
use bridge_pay_backend.Accounts.{of_user, get_by_user_id, get_my_account}
use bridge_pay_backend.Transactions.{
  involves, list_and_count, list_for_account, list_my_transactions,
}

module _ {A : Type 0} (P : A → Type 0) where
  All-drop : (n : ℕ) (t : List A) → All P t → All P (drop n t)
  unfolding drop
  All-drop zero t h = h
  All-drop (suc n) [] h = h
  All-drop (suc n) (r ∷ t) h = All-drop n t h.1

  All-take : (n : ℕ) (t : List A) → All P t → All P (take n t)
  unfolding take
  All-take zero t h = tt
  All-take (suc n) [] h = tt
  All-take (suc n) (r ∷ t) h = (h.0, All-take n t h.1)

-- A user with one account gets a page of that account's transactions and no other's, with the number of all of
-- them.
pub list_my_transactions_own :
    (user_id page page_size : ℕ) (a : Account) (s : Db)
    → select (of_user user_id) s.accounts ≡ a ∷ []
    → (items : List Transaction) × (list_my_transactions user_id page page_size s
        ≡ (ok (items, length (select (involves a.id) s.transactions)), s))
      × All (λ t. involves a.id t ≡ true) items
unfolding list_my_transactions list_for_account list_and_count get_my_account get_by_user_id
    paginate scalar_one_or_none ◌>>=◌
list_my_transactions_own user_id page page_size a s row = (
  paginate page page_size (select (involves a.id) s.transactions),
  rw row refl,
  All-take _ page_size _ (All-drop _ _ _ (All-passes (involves a.id) s.transactions)),
)

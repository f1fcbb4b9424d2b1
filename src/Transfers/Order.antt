-- ===== src/Transfers/Order.antt =====
-- Proofs about `lock_accounts_in_order` of app/modules/transfers/repository.py.
use bridge_pay_backend.Common.{ℕ, ◌≡◌, [], ◌∷◌, arith}
use bridge_pay_backend.Transfers.{insert, sorted, lock_accounts_in_order}

-- Two transfers between the same accounts, one in each direction, lock them in the same order.
pub lock_order_symmetric :
    (a b : ℕ) → lock_accounts_in_order (a ∷ b ∷ []) ≡ lock_accounts_in_order (b ∷ a ∷ [])
unfolding lock_accounts_in_order sorted insert
lock_order_symmetric a b = ground arith

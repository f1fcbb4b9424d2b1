-- ===== src/Payouts/Lifecycle.antt =====
-- app/modules/payouts: what may become of a payout. A payout is opened pending, is then sent (completed) or
-- reversed, and may still be reversed when it was sent; nothing else of it changes but its reference.
pub mod Rows
pub mod Steps
pub mod Calls
pub mod Callbacks
use bridge_pay_backend.Common.{ℕ, ◌<◌, ◌≡◌, ◌≢◌, refl, Bool, true, false, List, [], ◌∷◌, ◌==◌}
use bridge_pay_backend.Common.Table.{All}
use bridge_pay_backend.Schema.{Payout, PayoutStatus, Db}

unfoldable pub may_become : PayoutStatus → PayoutStatus → Bool
may_become PayoutStatus.pending PayoutStatus.failed = false
may_become PayoutStatus.pending _ = true
may_become PayoutStatus.completed PayoutStatus.completed = true
may_become PayoutStatus.completed PayoutStatus.reversed = true
may_become PayoutStatus.completed _ = false
may_become PayoutStatus.failed PayoutStatus.failed = true
may_become PayoutStatus.failed _ = false
may_become PayoutStatus.reversed PayoutStatus.reversed = true
may_become PayoutStatus.reversed _ = false

-- The same payout, at the same point of its life or a later one.
pub record Successor (p q : Payout) : Type 0 where
  pub status : may_become p.status q.status ≡ true
  pub same : q ≡ record p {
    status = q.status;
    external_reference = q.external_reference;
    failure_reason = q.failure_reason;
    completed_at = q.completed_at;
  }

-- Every row of the first table is in the second, in the same order; other rows may be new there.
pub data Follows : List Payout → List Payout → Type 0 where
  empty : Follows [] []
  later :
      {p q : Payout} {ps qs : List Payout}
      → Successor p q
      → Follows ps qs
      → Follows (p ∷ ps) (q ∷ qs)
  opened : {q : Payout} {ps qs : List Payout} → Follows ps qs → Follows ps (q ∷ qs)

abbrev pub Distinct : List Payout → Type 0
Distinct [] = Unit
Distinct (p ∷ ps) = All (λ q. (q.id == p.id) ≡ false) ps × Distinct ps

-- No two payouts have one id, and no id is given yet that will be.
abbrev pub IsKeyed : List Payout → ℕ → Type 0
IsKeyed ps n = All (λ q. q.id < n) ps × Distinct ps

-- Every payout of that id has a status of that kind.
abbrev pub Waits : ℕ → (PayoutStatus → Bool) → List Payout → Type 0
Waits id kind ps = All (λ q. (q.id == id) ≡ true → kind q.status ≡ true) ps

-- What a payout may be reversed from; a reversed payout stays one.
unfoldable pub is_reversible : PayoutStatus → Bool
unfolding may_become
is_reversible st = may_become st PayoutStatus.reversed

-- ===== src/Accounts/Transit.antt =====
-- Proofs about the ledger: a transfer's debit, credit and transaction.
use bridge_pay_backend.Common.{ℕ, suc, ◌<◌, ◌≡◌, true, false, List, ◌∷◌, Option, some, arith}
use bridge_pay_backend.Common.Int.{pos, ◌-ℤ◌, ◌≤ℤ◌, int_laws}
use bridge_pay_backend.Common.Text.{Str}
use bridge_pay_backend.Common.Table.{select, update, All, All-update, All-Unit}
use bridge_pay_backend.Outside.{Outside, RoundsToNearest}
use bridge_pay_backend.Schema.{Account, Transaction, TransactionType, ReferenceNote, of_cents}
use bridge_pay_backend.Accounts.{has_id, credit, debit, is_short, entry}
use bridge_pay_backend.Accounts.Balance.{
  Near, moved, net, slack, IsSoundRow, IsAccount, IsSoundLedger, withdraw_covered, deposit_covered,
  to_cents_exact, rounded-add, rounded-sub,
}
use bridge_pay_backend.Accounts.Movements.{
  KnownEnds-suc, IsAccount-update, NamedEnds-update, debit_id, credit_id,
}

-- Halfway through a transfer the money has left, and has not arrived.
record IsInTransit (bound : ℕ) (from n : ℕ) (ts : List Transaction) (a : Account) : Type 0 where
  derivable : Near (slack a.id ts) a.balance (net a.id ts -ℤ moved (some from) a.id n)
  covered : pos 0 ≤ℤ a.balance
  known : a.id < bound

module _ (o : Outside) (nearest : RoundsToNearest o) (id from to n : ℕ) (cur : Str)
    (why : ReferenceNote) (ts : List Transaction) where
  leave :
      (a : Account)
      → has_id from a ≡ true
      → IsSoundRow id ts a
      → is_short a (of_cents n) ≡ false
      → IsInTransit id from n ts (debit o (of_cents n) a)
  unfolding debit is_short
  leave a e h c = grind (
    int_laws,
    rounded-sub o nearest a.balance n,
    withdraw_covered o nearest a.balance (of_cents n) c,
  )

  stay : (a : Account) → has_id from a ≡ false → IsSoundRow id ts a → IsInTransit id from n ts a
  stay a e h = grind int_laws

  arrive :
      (a : Account)
      → has_id to a ≡ true
      → IsInTransit id from n ts a
      → IsSoundRow
          (suc id)
          (entry id (some from) (some to) (o.to_cents (of_cents n)) cur TransactionType.transfer why
            ∷ ts)
          (credit o (of_cents n) a)
  unfolding credit net slack
  arrive a e h = grind (
    int_laws,
    rounded-add o nearest a.balance n,
    to_cents_exact o nearest n,
    deposit_covered o nearest a.balance (of_cents n) h.covered,
  )

  settle :
      (a : Account)
      → has_id to a ≡ false
      → IsInTransit id from n ts a
      → IsSoundRow
          (suc id)
          (entry id (some from) (some to) (o.to_cents (of_cents n)) cur TransactionType.transfer why
            ∷ ts)
          a
  unfolding net slack
  settle a e h = grind (int_laws, to_cents_exact o nearest n)

  -- Money that changes hands, from accounts that are not short of it.
  pub transfer-IsSound :
      (accounts : List Account)
      → from < id
      → to < id
      → IsAccount accounts (some from)
      → IsAccount accounts (some to)
      → IsSoundLedger id accounts ts
      → All (λ a. is_short a (of_cents n) ≡ false) (select (has_id from) accounts)
      → IsSoundLedger
          (suc id)
          (update
            (has_id to)
            (credit o (of_cents n))
            (update (has_id from) (debit o (of_cents n)) accounts))
          (entry id (some from) (some to) (o.to_cents (of_cents n)) cur TransactionType.transfer why
            ∷ ts)
  transfer-IsSound accounts bf bt is_from is_to h c = record {
    rows =
        All-update _ _ _ (has_id to) (credit o (of_cents n)) (λ a e g _. arrive a e g) settle _
          (All-update _ _ _ (has_id from) (debit o (of_cents n)) leave stay accounts h.rows c)
          (All-Unit _);
    ends = ((omega arith, omega arith), KnownEnds-suc id ts h.ends);
    named = (
      (still (some from) is_from, still (some to) is_to),
      NamedEnds-update _ _ (credit_id o (of_cents n)) _ ts
          (NamedEnds-update _ _ (debit_id o (of_cents n)) accounts ts h.named),
    );
  }
    where
      still :
          (key : Option ℕ)
          → IsAccount accounts key
          → IsAccount
              (update
                (has_id to)
                (credit o (of_cents n))
                (update (has_id from) (debit o (of_cents n)) accounts))
              key
      still key is =
          IsAccount-update _ _ (credit_id o (of_cents n)) _ key
            (IsAccount-update _ _ (debit_id o (of_cents n)) accounts key is)

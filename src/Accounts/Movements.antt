-- ===== src/Accounts/Movements.antt =====
-- Proofs about the ledger: money that leaves the platform and money that comes in.
use bridge_pay_backend.Common.{
  ℕ, suc, ◌<◌, ◌≡◌, ◌∙◌, ap, ◌==◌, Bool, refl, true, false, List, ◌∷◌, Option, none, some, is_key,
  arith,
}
use bridge_pay_backend.Common.Int.{int_laws}
use bridge_pay_backend.Common.Text.{Str}
use bridge_pay_backend.Common.Table.{
  select, update, any-update, All, All-update, All-mono, All-Unit,
}
use bridge_pay_backend.Outside.{Outside, RoundsToNearest}
use bridge_pay_backend.Schema.{Account, Transaction, TransactionType, ReferenceNote, Decimal}
use bridge_pay_backend.Accounts.{has_id, credit, debit, is_short, entry}
use bridge_pay_backend.Accounts.Balance.{
  net, conversions, slack, IsSoundRow, IsBelow, KnownEnds, IsAccount, NamedEnds, IsSoundLedger,
  withdraw-Near, withdraw_covered, deposit-Near, deposit_covered,
}

IsBelow-suc : (bound : ℕ) (key : Option ℕ) → IsBelow bound key → IsBelow (suc bound) key
IsBelow-suc bound none h = tt
IsBelow-suc bound (some k) h = omega arith

pub KnownEnds-suc :
    (bound : ℕ) (ts : List Transaction) → All (KnownEnds bound) ts → All (KnownEnds (suc bound)) ts
KnownEnds-suc bound =
    All-mono _ _
      (λ t h. (IsBelow-suc bound t.from_account_id h.0, IsBelow-suc bound t.to_account_id h.1))

pub IsAccount-update :
    (q : Account → Bool) (f : Account → Account)
    → ((a : Account) → (f a).id ≡ a.id)
    → (accounts : List Account) (key : Option ℕ) → IsAccount accounts key
    → IsAccount (update q f accounts) key
IsAccount-update q f same accounts none h = tt
IsAccount-update q f same accounts (some k) h =
    any-update (has_id k) q f (λ a. ap (λ n. n == k) (same a)) accounts ∙ h

-- A change of balances leaves the accounts that the ledger names.
pub NamedEnds-update :
    (q : Account → Bool) (f : Account → Account)
    → ((a : Account) → (f a).id ≡ a.id)
    → (accounts : List Account) (ts : List Transaction) → All (NamedEnds accounts) ts
    → All (NamedEnds (update q f accounts)) ts
NamedEnds-update q f same accounts = All-mono _ _ (λ t h. (
  IsAccount-update q f same accounts t.from_account_id h.0,
  IsAccount-update q f same accounts t.to_account_id h.1,
))

pub debit_id : (o : Outside) (x : Decimal) (a : Account) → (debit o x a).id ≡ a.id
unfolding debit
debit_id o x a = refl

pub credit_id : (o : Outside) (x : Decimal) (a : Account) → (credit o x a).id ≡ a.id
unfolding credit
credit_id o x a = refl

-- An account that a transaction does not name is as it was.
module _ (id : ℕ) (from to : Option ℕ) (n : ℕ) (cur : Str) (why : ReferenceNote) (a : Account) where
  conversions-miss :
      (type : TransactionType)
      → is_key from a.id ≡ false
      → is_key to a.id ≡ false
      → conversions type from to a.id ≡ 0
  unfolding conversions
  conversions-miss TransactionType.transfer e e' = refl
  conversions-miss _ e e' = rw (e, e') (omega arith)

  pub miss-IsSoundRow :
      (type : TransactionType) (ts : List Transaction)
      → is_key from a.id ≡ false
      → is_key to a.id ≡ false
      → IsSoundRow id ts a
      → IsSoundRow (suc id) (entry id from to n cur type why ∷ ts) a
  unfolding net slack
  miss-IsSoundRow type ts e e' h = record {
    derivable = rw (e, e', conversions-miss type e e') (omega (int_laws, h.derivable));
    covered = h.covered;
    known = omega arith;
  }

module _ (o : Outside) (nearest : RoundsToNearest o) (id k : ℕ) (x : Decimal) (cur : Str) where
  withdraw-IsSoundRow :
      (why : ReferenceNote) (ts : List Transaction) (a : Account)
      → has_id k a ≡ true
      → IsSoundRow id ts a
      → is_short a x ≡ false
      → IsSoundRow
          (suc id)
          (entry id (some k) none (o.to_cents x) cur TransactionType.withdrawal why ∷ ts)
          (debit o x a)
  unfolding debit net slack is_short
  withdraw-IsSoundRow why ts a e h c = ground (
    arith,
    withdraw-Near o nearest a.balance (net a.id ts) (slack a.id ts) x h.derivable,
    withdraw_covered o nearest a.balance x c,
  )

  -- Money that leaves the platform, from accounts that are not short of it.
  pub withdraw-IsSound :
      (why : ReferenceNote) (accounts : List Account) (ts : List Transaction)
      → k < id
      → IsAccount accounts (some k)
      → IsSoundLedger id accounts ts
      → All (λ a. is_short a x ≡ false) (select (has_id k) accounts)
      → IsSoundLedger
          (suc id)
          (update (has_id k) (debit o x) accounts)
          (entry id (some k) none (o.to_cents x) cur TransactionType.withdrawal why ∷ ts)
  withdraw-IsSound why accounts ts b is h c = record {
    rows =
        All-update _ _ _ (has_id k) (debit o x) (λ a. withdraw-IsSoundRow why ts a)
          (λ a e.
            miss-IsSoundRow id (some k) none _ cur why a TransactionType.withdrawal ts
              (ground arith) refl)
          accounts h.rows c;
    ends = ((omega arith, tt), KnownEnds-suc id ts h.ends);
    named = (
      (IsAccount-update (has_id k) (debit o x) (debit_id o x) accounts (some k) is, tt),
      NamedEnds-update (has_id k) (debit o x) (debit_id o x) accounts ts h.named,
    );
  }

  deposit-IsSoundRow :
      (why : ReferenceNote) (ts : List Transaction) (a : Account)
      → has_id k a ≡ true
      → IsSoundRow id ts a
      → IsSoundRow
          (suc id)
          (entry id none (some k) (o.to_cents x) cur TransactionType.deposit why ∷ ts)
          (credit o x a)
  unfolding credit net slack
  deposit-IsSoundRow why ts a e h = ground (
    arith,
    deposit-Near o nearest a.balance (net a.id ts) (slack a.id ts) x h.derivable,
    deposit_covered o nearest a.balance x h.covered,
  )

  -- Money that comes in from outside.
  pub deposit-IsSound :
      (why : ReferenceNote) (accounts : List Account) (ts : List Transaction)
      → k < id
      → IsAccount accounts (some k)
      → IsSoundLedger id accounts ts
      → IsSoundLedger
          (suc id)
          (update (has_id k) (credit o x) accounts)
          (entry id none (some k) (o.to_cents x) cur TransactionType.deposit why ∷ ts)
  deposit-IsSound why accounts ts b is h = record {
    rows =
        All-update _ _ _ (has_id k) (credit o x) (λ a e g _. deposit-IsSoundRow why ts a e g)
          (λ a e.
            miss-IsSoundRow id none (some k) _ cur why a TransactionType.deposit ts refl
              (ground arith))
          accounts h.rows (All-Unit _);
    ends = ((tt, omega arith), KnownEnds-suc id ts h.ends);
    named = (
      (tt, IsAccount-update (has_id k) (credit o x) (credit_id o x) accounts (some k) is),
      NamedEnds-update (has_id k) (credit o x) (credit_id o x) accounts ts h.named,
    );
  }

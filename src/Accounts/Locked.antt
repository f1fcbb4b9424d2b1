-- ===== src/Accounts/Locked.antt =====
-- Rules for actions that lock an account and change the ledger.
use bridge_pay_backend.Common.{
  ℕ, suc, ◌≡◌, sym, ◌∙◌, subst, false, List, [], ◌∷◌, some, none, ==_iff, arith,
}
use bridge_pay_backend.Common.Text.{Str}
use bridge_pay_backend.Common.Table.{select, All-select, All-passes, All-mono, any_of_select}
use bridge_pay_backend.Outside.{Outside, RoundsToNearest}
use bridge_pay_backend.Schema.{Account, Transaction, TransactionType, ReferenceNote, Decimal, Db}
use bridge_pay_backend.Session.{Action, ◌>>=◌, ◌>>◌, modify, fresh_id}
use bridge_pay_backend.Session.Keeps.{Leads, Keeps}
use bridge_pay_backend.Session.Reads.{
  Reads, Reads-gets, Reads-lift, Reads-bind, Reads-imp, scalar_one_row,
}
use bridge_pay_backend.Accounts.{
  has_id, get_by_id_locked, is_short, add_transaction, debit_row, credit_row,
}
use bridge_pay_backend.Accounts.Balance.{IsSound, IsSoundRow, IsAccount, IsSoundLedger}
use bridge_pay_backend.Accounts.Movements.{KnownEnds-suc, withdraw-IsSound, deposit-IsSound}

-- The account is the one row of its id.
abbrev pub IsRow : ℕ → Account → Db → Type 0
IsRow id a s = select (has_id id) s.accounts ≡ a ∷ []

pub row_id : (id : ℕ) (a : Account) (s : Db) → IsRow id a s → a.id ≡ id
row_id id a s e = (==_iff a.id id).0 (rw e at (All-passes (has_id id) s.accounts)).0

pub row-IsSoundRow :
    (id : ℕ) (a : Account) (s : Db)
    → IsSound s
    → IsRow id a s
    → IsSoundRow s.next_id s.transactions a
row-IsSoundRow id a s h e = (rw e at (All-select _ (has_id id) s.accounts h.rows)).0

pub row-IsAccount : (id : ℕ) (a : Account) (s : Db) → IsRow id a s → IsAccount s.accounts (some id)
row-IsAccount id a s e = any_of_select (has_id id) a [] s.accounts e

-- A locked account is the one row of its id, so `account.id` names that row as well.
pub IsRow-self : (id : ℕ) (a : Account) (s : Db) → IsRow id a s → IsRow a.id a s
IsRow-self id a s e = subst (λ k. select (has_id k) s.accounts ≡ a ∷ []) (sym (row_id id a s e)) e

pub Reads-get_by_id_locked :
    (id : ℕ) → Reads (λ s a. (a.id ≡ id) × IsRow a.id a s) (get_by_id_locked id)
unfolding get_by_id_locked
Reads-get_by_id_locked id = Reads-bind _ _ (Reads-gets _) (λ rows.
    Reads-imp _
      (λ s a r q.
        let e : IsRow id a s = q ∙ scalar_one_row rows a r in
        (row_id id a s e, IsRow-self id a s e))
      (Reads-lift _))

-- One more id is given out.
pub later-IsSoundLedger :
    {bound : ℕ} (accounts : List Account) (ts : List Transaction)
    → IsSoundLedger bound accounts ts
    → IsSoundLedger (suc bound) accounts ts
later-IsSoundLedger {bound} accounts ts h = record {
  rows =
      All-mono _ _
        (λ a r. record { derivable = r.derivable; covered = r.covered; known = omega arith })
        accounts h.rows;
  ends = KnownEnds-suc bound ts h.ends;
  named = h.named;
}

pub Keeps-fresh_id : Keeps IsSound fresh_id
unfolding fresh_id
Keeps-fresh_id = record { at = λ s h. later-IsSoundLedger s.accounts s.transactions h }

module _ (o : Outside) (nearest : RoundsToNearest o) (a : Account) (x : Decimal) (cur : Str)
    (why : ReferenceNote) where
  pub Leads-withdraw :
      {A : Type 0} (f : Transaction → Action A)
      → is_short a x ≡ false
      → ((t : Transaction) → Keeps IsSound (f t))
      → Leads
          (λ s. IsSound s × IsRow a.id a s)
          IsSound
          (modify (debit_row o a.id x)
            >> (add_transaction o (some a.id) none x cur TransactionType.withdrawal why >>= f))
  unfolding ◌>>=◌ add_transaction
  Leads-withdraw f c kf = record {
    at = λ s h. (kf _).at _ (
        withdraw-IsSound o nearest s.next_id a.id x cur why s.accounts s.transactions
          (row-IsSoundRow a.id a s h.0 h.1).known (row-IsAccount a.id a s h.1) h.0
          (rw (h.1) (c, tt)));
  }

  pub Leads-deposit :
      {A : Type 0} (f : Transaction → Action A)
      → ((t : Transaction) → Keeps IsSound (f t))
      → Leads
          (λ s. IsSound s × IsRow a.id a s)
          IsSound
          (modify (credit_row o a.id x)
            >> (add_transaction o none (some a.id) x cur TransactionType.deposit why >>= f))
  unfolding ◌>>=◌ add_transaction
  Leads-deposit f kf = record {
    at = λ s h. (kf _).at _ (
        deposit-IsSound o nearest s.next_id a.id x cur why s.accounts s.transactions
          (row-IsSoundRow a.id a s h.0 h.1).known (row-IsAccount a.id a s h.1) h.0);
  }

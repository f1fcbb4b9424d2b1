-- ===== src/Transfers/Soundness.antt =====
-- Proofs about app/modules/transfers/service.py: the ledger under a transfer, and a transfer that fails.
use bridge_pay_backend.Common.{
  ℕ, ◌≡◌, ◌∙◌, false, List, [], ◌∷◌, Option, ◌==◌, ==_iff, Bool-cases, inl, inr, subst,
}
use bridge_pay_backend.Common.Text.{Str}
use bridge_pay_backend.Common.Table.{All}
use bridge_pay_backend.Errors.{Error, ok, err}
use bridge_pay_backend.Outside.{Outside, RoundsToNearest}
use bridge_pay_backend.Schema.{User, Account, Db, of_cents, ReferenceNote}
use bridge_pay_backend.Session.{◌>>=◌}
use bridge_pay_backend.Session.Keeps.{Leads, Keeps, keeps_rules, Leads-pre, Leads-guard}
use bridge_pay_backend.Session.Reads.{
  Reads, Reads-gets, Reads-lift, Reads-bind, Reads-imp, Reads-pure, Reads-raise_if, Leads-read,
  Atomic, Atomic-bind, Atomic-option_case, Atomic-raise,
}
use bridge_pay_backend.Accounts.{get_by_user_id, is_short, add_transaction}
use bridge_pay_backend.Accounts.Balance.{IsSound}
use bridge_pay_backend.Accounts.Locked.{
  IsRow, Reads-get_by_id_locked, row-IsSoundRow, row-IsAccount,
}
use bridge_pay_backend.Accounts.Transit.{transfer-IsSound}
use bridge_pay_backend.Transfers.{
  Locked, lock_all, lock_accounts_in_order, get_locked, record_transfer, transfer_between,
  execute_transfer,
}
use bridge_pay_backend.Users

abbrev AreRows : Locked → Db → Type 0
AreRows locked s = All (λ p. (p.1.id ≡ p.0) × IsRow p.1.id p.1 s) locked

Reads-lock_all : (ids : List ℕ) → Reads (λ s locked. AreRows locked s) (lock_all ids)
unfolding lock_all
Reads-lock_all [] = Reads-pure [] (λ s. tt)
Reads-lock_all (id ∷ ids) = Reads-bind _ _ (Reads-get_by_id_locked id) (λ account.
    Reads-bind _ _ (Reads-lock_all ids) (λ rest. Reads-pure _ (λ s. λ rows row. (row, rows))))

get_locked-IsRow :
    (id : ℕ) (locked : Locked) (a : Account) (s : Db)
    → AreRows locked s
    → get_locked id locked ≡ ok a
    → (a.id ≡ id) × IsRow a.id a s
unfolding get_locked
get_locked-IsRow id [] a s h e = cc
get_locked-IsRow id ((j, b) ∷ rest) a s h e = elim (Bool-cases (j == id)) [
  | inl t ↦
      let e' : ok b ≡ ok a = rw t at e in
      subst (λ c. (c.id ≡ id) × IsRow c.id c s) (cc) (h.0.0 ∙ (==_iff j id).0 t, h.0.1)
  | inr f ↦ get_locked-IsRow id rest a s h.1 (rw f at e)
]

module _ (o : Outside) (nearest : RoundsToNearest o) where
  Leads-record_transfer :
      (from to : Account) (amount : ℕ) (why : Option Str)
      → is_short from (of_cents amount) ≡ false
      → Leads
          (λ s. IsSound s × IsRow from.id from s × IsRow to.id to s)
          IsSound
          (record_transfer o from to amount why)
  unfolding record_transfer ◌>>=◌ add_transaction
  Leads-record_transfer from to amount why c = record {
    at = λ s h.
        transfer-IsSound o nearest s.next_id from.id to.id amount from.currency
          (ReferenceNote.note why) s.transactions s.accounts
          (row-IsSoundRow from.id from s h.0 h.1).known (row-IsSoundRow to.id to s h.0 h.2).known
          (row-IsAccount from.id from s h.1) (row-IsAccount to.id to s h.2) h.0 (rw (h.1) (c, tt));
  }

  Keeps-transfer_between :
      (from to : Account) (amount : ℕ) (why : Option Str)
      → Keeps IsSound (transfer_between o from to amount why)
  unfolding transfer_between lock_accounts_in_order
  Keeps-transfer_between from to amount why =
      Leads-read _ _ (Reads-lock_all _) (λ s h. h)
        (λ locked.
          Leads-read _ _ (Reads-lift _) (λ s h. h.0)
            (λ from_locked.
              Leads-read _ _ (Reads-lift _) (λ s h. h.0.0)
                (λ to_locked.
                  Leads-guard _ _ _ (λ s h. h.0.0.0)
                    (λ covered.
                      Leads-pre _
                        (λ s h. (
                          h.0.0.0,
                          (get_locked-IsRow _ locked from_locked s h.0.0.1 h.0.1).1,
                          (get_locked-IsRow _ locked to_locked s h.0.0.1 h.1).1,
                        ))
                        (Leads-record_transfer from_locked to_locked amount why covered)))))

  -- A transfer keeps the ledger sound, whether it succeeds or raises.
  pub execute_transfer-IsSound :
      (from_user : User) (to_email : Str) (amount : ℕ) (why : Option Str)
      → Keeps IsSound (execute_transfer o from_user to_email amount why)
  unfolding execute_transfer Users.get_by_email Users.find_one get_by_user_id
  execute_transfer-IsSound from_user to_email amount why =
      search (keeps_rules, Keeps-transfer_between) depth 20

Atomic-record_transfer :
    (o : Outside) (from to : Account) (amount : ℕ) (why : Option Str)
    → Atomic (record_transfer o from to amount why)
unfolding record_transfer ◌>>=◌ add_transaction
Atomic-record_transfer o from to amount why = record { at = λ s e h. cc }

Atomic-transfer_between :
    (o : Outside) (from to : Account) (amount : ℕ) (why : Option Str)
    → Atomic (transfer_between o from to amount why)
unfolding transfer_between lock_accounts_in_order
Atomic-transfer_between o from to amount why = Atomic-bind _ _ (Reads-lock_all _) (λ locked.
    Atomic-bind _ _ (Reads-lift _) (λ from_locked. Atomic-bind _ _ (Reads-lift _) (λ to_locked.
      Atomic-bind _ _ (Reads-raise_if _ _)
        (λ covered. Atomic-record_transfer o from_locked to_locked amount why))))

-- The lookups of `execute_transfer` change nothing.
Reads-get_by_email : (email : Str) → Reads (λ s u. Unit {0}) (Users.get_by_email email)
unfolding Users.get_by_email Users.find_one
Reads-get_by_email email =
    Reads-bind _ _ (Reads-gets _) (λ rows. Reads-imp _ (λ s a h g. tt) (Reads-lift _))

Reads-get_by_user_id : (user_id : ℕ) → Reads (λ s a. Unit {0}) (get_by_user_id user_id)
unfolding get_by_user_id
Reads-get_by_user_id user_id =
    Reads-bind _ _ (Reads-gets _) (λ rows. Reads-imp _ (λ s a h g. tt) (Reads-lift _))

pub execute_transfer-Atomic :
    (o : Outside) (from_user : User) (to_email : Str) (amount : ℕ) (why : Option Str)
    → Atomic (execute_transfer o from_user to_email amount why)
unfolding execute_transfer
execute_transfer-Atomic o from_user to_email amount why =
    Atomic-bind _ _ (Reads-raise_if _ _) (λ other.
      Atomic-bind _ _ (Reads-get_by_email _) (λ to_user.
        Atomic-option_case _ _ _ (Atomic-raise _) (λ u.
          Atomic-bind _ _ (Reads-get_by_user_id _) (λ from_account.
            Atomic-bind _ _ (Reads-get_by_user_id _) (λ to_account.
              Atomic-option_case _ _ _ (Atomic-raise _) (λ f.
                Atomic-option_case _ _ _ (Atomic-raise _)
                  (λ t. Atomic-transfer_between o f t amount why)))))))

-- A transfer that raises leaves the database as it was.
pub execute_transfer_atomic :
    (o : Outside) (from_user : User) (to_email : Str) (amount : ℕ) (why : Option Str) (s : Db)
    (e : Error)
    → (execute_transfer o from_user to_email amount why s).0 ≡ err e
    → (execute_transfer o from_user to_email amount why s).1 ≡ s
execute_transfer_atomic o from_user to_email amount why =
    (execute_transfer-Atomic o from_user to_email amount why).at

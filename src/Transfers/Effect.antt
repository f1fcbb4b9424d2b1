-- ===== src/Transfers/Effect.antt =====
-- Proofs about app/modules/transfers: the effect of `execute_transfer`.
use bridge_pay_backend.Common.{
  ℕ, suc, ◌≡◌, ◌≢◌, refl, sym, ap, ◌∙◌, false, List, [], ◌∷◌, Option, some, ==_refl, leb,
  Bool-cases, inl, inr, arith, if◌then◌else◌,
}
use bridge_pay_backend.Common.Int.{pos, ◌+ℤ◌, ◌-ℤ◌}
use bridge_pay_backend.Common.Text.{Str, str_eq}
use bridge_pay_backend.Common.Table.{select, update, select-update, select-update_other}
use bridge_pay_backend.Errors.{ok}
use bridge_pay_backend.Outside.{Outside, RoundsToNearest}
use bridge_pay_backend.Schema.{
  User, Account, Transaction, TransactionType, ReferenceNote, Db, of_cents,
}
use bridge_pay_backend.Session.{◌>>=◌, scalar_one, scalar_one_or_none}
use bridge_pay_backend.Accounts.{
  has_id, of_user, get_by_user_id, get_by_id_locked, credit, debit, is_short, entry,
  add_transaction,
}
use bridge_pay_backend.Accounts.Balance.{to_cents_exact, rounded-add, rounded-sub}
use bridge_pay_backend.Accounts.Locked.{IsRow}
use bridge_pay_backend.Transfers.{
  Locked, insert, sorted, lock_all, lock_accounts_in_order, get_locked, record_transfer,
  transfer_between, execute_transfer,
}
use bridge_pay_backend.Users

-- The state behind a transfer.
abbrev pub transferred : Outside → Account → Account → ℕ → Option Str → Db → Db
transferred o f g amount why s = record s {
  next_id = suc s.next_id;
  accounts =
      update (has_id g.id) (credit o (of_cents amount))
        (update (has_id f.id) (debit o (of_cents amount)) s.accounts);
  transactions =
      entry s.next_id (some f.id) (some g.id) (o.to_cents (of_cents amount)) f.currency
        TransactionType.transfer (ReferenceNote.note why)
      ∷ s.transactions;
}

-- The accounts as the loop locks them.
abbrev in_order : Account → Account → Locked
in_order f g = if leb f.id g.id then (f.id, f) ∷ (g.id, g) ∷ [] else (g.id, g) ∷ (f.id, f) ∷ []

locks :
    (f g : Account) (s : Db)
    → f.id ≢ g.id
    → IsRow f.id f s
    → IsRow g.id g s
    → lock_accounts_in_order (f.id ∷ g.id ∷ []) s ≡ (ok (in_order f g), s)
unfolding lock_accounts_in_order sorted insert lock_all get_by_id_locked ◌>>=◌ scalar_one
locks f g s ne rf rg = elim (Bool-cases (leb f.id g.id)) [
  | inl e ↦ simp (e, rf, rg)
  | inr e ↦ simp (e, rf, rg)
]

-- What `execute_transfer` finds when all is in order: two users, with one account each, that differ, and
-- the sender's money.
pub record Ready (from_user : User) (to_email : Str) (amount : ℕ) (u : User) (f g : Account)
    (s : Db) : Type 0 where
  pub other_email : str_eq from_user.email to_email ≡ false
  pub recipient : select (Users.has_email to_email) s.users ≡ u ∷ []
  pub sender_account : select (of_user from_user.id) s.accounts ≡ f ∷ []
  pub recipient_account : select (of_user u.id) s.accounts ≡ g ∷ []
  pub other_account : f.id ≢ g.id
  pub sender_row : IsRow f.id f s
  pub recipient_row : IsRow g.id g s
  pub covered : is_short f (of_cents amount) ≡ false

module _ (o : Outside) (f g : Account) (amount : ℕ) (why : Option Str) (s : Db) where
  found :
      f.id ≢ g.id
      → (get_locked f.id (in_order f g) ≡ ok f) × (get_locked g.id (in_order f g) ≡ ok g)
  unfolding get_locked
  found ne = ground arith

  abbrev record_of : Transaction
  record_of =
      entry s.next_id (some f.id) (some g.id) (o.to_cents (of_cents amount)) f.currency
        TransactionType.transfer (ReferenceNote.note why)

  transfer_between_runs :
      f.id ≢ g.id
      → IsRow f.id f s
      → IsRow g.id g s
      → is_short f (of_cents amount) ≡ false
      → transfer_between o f g amount why s ≡ (ok record_of, transferred o f g amount why s)
  unfolding transfer_between record_transfer add_transaction ◌>>=◌
  transfer_between_runs ne rf rg c =
      rw (locks f g s ne rf rg) (rw ((found ne).0, (found ne).1, c) refl)

  runs :
      (from_user : User) (to_email : Str) (u : User)
      → Ready from_user to_email amount u f g s
      → execute_transfer o from_user to_email amount why s
        ≡ (ok record_of, transferred o f g amount why s)
  unfolding execute_transfer Users.get_by_email Users.find_one get_by_user_id scalar_one_or_none
      ◌>>=◌
  runs from_user to_email u h =
      rw (h.other_email, h.recipient, h.sender_account, h.recipient_account)
        (transfer_between_runs h.other_account h.sender_row h.recipient_row h.covered)

has_id-credit : (o : Outside) (k x : ℕ) (a : Account) → has_id k (credit o x a) ≡ has_id k a
unfolding credit
has_id-credit o k x a = refl

has_id-debit : (o : Outside) (k x : ℕ) (a : Account) → has_id k (debit o x a) ≡ has_id k a
unfolding debit
has_id-debit o k x a = refl

-- The rows of an id under an update of another id's, and under one of its own.
module _ (k j : ℕ) (f : Account → Account)
    (keeps_id : (i : ℕ) (a : Account) → has_id i (f a) ≡ has_id i a) where
  rows_other :
      (t : List Account) → k ≢ j → select (has_id k) (update (has_id j) f t) ≡ select (has_id k) t
  rows_other t ne = select-update_other (has_id k) (has_id j) f (keeps_id k) (λ a e. ground arith) t

  row_self :
      (a : Account) (t : List Account)
      → a.id ≡ j
      → select (has_id j) t ≡ a ∷ []
      → select (has_id j) (update (has_id j) f t) ≡ f a ∷ []
  unfolding update
  row_self a t e row =
      select-update (has_id j) (has_id j) f (keeps_id j) t ∙ rw row (rw e (rw (==_refl j) refl))

module _ (o : Outside) (nearest : RoundsToNearest o) (from_user : User) (to_email : Str)
    (amount : ℕ) (why : Option Str) (u : User) (f g : Account) (s : Db) where
  -- Between two users with other addresses and one account each, both known and of other ids, where the
  -- sender's balance covers the amount and the database rounds to a nearest cent, the transfer goes through: the
  -- sender's balance falls by the amount and the recipient's rises by it, exactly, the rows of every other
  -- account stay, and one transaction is added.
  pub execute_transfer_moves :
      Ready from_user to_email amount u f g s
      → let t =
          entry s.next_id
            (some f.id)
            (some g.id)
            amount
            f.currency
            TransactionType.transfer
            (ReferenceNote.note why) in
        let (r, s') = execute_transfer o from_user to_email amount why s in
        (r ≡ ok t)
        × (select (has_id f.id) s'.accounts ≡ record f { balance = f.balance -ℤ pos amount } ∷ [])
        × (select (has_id g.id) s'.accounts ≡ record g { balance = g.balance +ℤ pos amount } ∷ [])
        × ((k : ℕ)
            → k ≢ f.id
            → k ≢ g.id
            → select (has_id k) s'.accounts ≡ select (has_id k) s.accounts)
        × (s'.transactions ≡ t ∷ s.transactions)
  unfolding credit debit
  execute_transfer_moves h =
      let minus = debit o (of_cents amount) in
      let plus = credit o (of_cents amount) in
      let minus_id = λ (i : ℕ) (a : Account). has_id-debit o i (of_cents amount) a in
      let plus_id = λ (i : ℕ) (a : Account). has_id-credit o i (of_cents amount) a in
      let less = update (has_id f.id) minus s.accounts in
      rw (runs o f g amount why s from_user to_email u h) (
        rw (to_cents_exact o nearest amount) (
          refl,
          rows_other f.id g.id plus plus_id less h.other_account
              ∙ row_self f.id f.id minus minus_id f s.accounts refl h.sender_row
              ∙ ap (λ b. record f { balance = b } ∷ []) (rounded-sub o nearest f.balance amount),
          row_self g.id g.id plus plus_id g less refl (
                rows_other g.id f.id minus minus_id s.accounts (λ e. h.other_account (sym e))
                ∙ h.recipient_row)
              ∙ ap (λ b. record g { balance = b } ∷ []) (rounded-add o nearest g.balance amount),
          λ k nf ng.
              rows_other k g.id plus plus_id less ng
              ∙ rows_other k f.id minus minus_id s.accounts nf,
          refl,
        ))

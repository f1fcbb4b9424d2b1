-- ===== src/Accounts/Opening.antt =====
-- Proofs about the ledger: a new account.
use bridge_pay_backend.Common.{
  ℕ, suc, ◌≡◌, refl, false, List, [], ◌∷◌, Option, none, some, is_key, arith, leb, Bool-cases, inl,
  inr,
}
use bridge_pay_backend.Common.Int.{pos, int_laws}
use bridge_pay_backend.Common.Table.{All, All-mono, any, select, length}
use bridge_pay_backend.Common.Text.{Str, codes}
use bridge_pay_backend.Schema.{Account, Transaction}
use bridge_pay_backend.Session.{◌>>=◌}
use bridge_pay_backend.Session.Keeps.{Keeps}
use bridge_pay_backend.Accounts.{of_user, create}
use bridge_pay_backend.Accounts.Balance.{
  net, IsSound, IsBelow, KnownEnds, IsAccount, NamedEnds, IsSoundLedger,
}
use bridge_pay_backend.Accounts.Locked.{later-IsSoundLedger}

is_key-below : (bound : ℕ) (key : Option ℕ) → IsBelow bound key → is_key key bound ≡ false
is_key-below bound none h = refl
is_key-below bound (some k) h = ground arith

net-unknown : (id : ℕ) (ts : List Transaction) → All (KnownEnds id) ts → net id ts ≡ pos 0
unfolding net
net-unknown id [] h = refl
net-unknown id (t ∷ ts) h =
    rw
      (
        is_key-below id t.from_account_id h.0.0,
        is_key-below id t.to_account_id h.0.1,
        net-unknown id ts h.1,
      )
      (omega int_laws)

-- The row that `create` adds.
abbrev pub opened : ℕ → ℕ → Str → Account
opened id user_id currency = record {
  id = id;
  user_id = user_id;
  balance = pos 0;
  currency = currency;
}

IsAccount-open :
    (a : Account) (accounts : List Account) (key : Option ℕ)
    → IsAccount accounts key
    → IsAccount (a ∷ accounts) key
unfolding any
IsAccount-open a accounts none h = tt
IsAccount-open a accounts (some k) h = ground arith

NamedEnds-open :
    (a : Account) (accounts : List Account) (t : Transaction)
    → NamedEnds accounts t
    → NamedEnds (a ∷ accounts) t
NamedEnds-open a accounts t h =
    (IsAccount-open a accounts t.from_account_id h.0, IsAccount-open a accounts t.to_account_id h.1)

open-IsSound :
    (id user_id : ℕ) (currency : Str) (accounts : List Account) (ts : List Transaction)
    → IsSoundLedger id accounts ts
    → IsSoundLedger (suc id) (opened id user_id currency ∷ accounts) ts
open-IsSound id user_id currency accounts ts h =
    let later = later-IsSoundLedger accounts ts h in
    let none_yet = net-unknown id ts h.ends in
    record {
      rows = (
        record {
          derivable = rw none_yet (omega arith);
          covered = omega arith;
          known = omega arith;
        },
        later.rows,
      );
      ends = later.ends;
      named = All-mono _ _ (NamedEnds-open (opened id user_id currency) accounts) ts later.named;
    }

-- Opening an account keeps the ledger sound.
pub Keeps-create : (user_id : ℕ) → Keeps IsSound (create user_id)
unfolding create ◌>>=◌
Keeps-create user_id = record {
  at = λ s h. elim (Bool-cases (leb 1 (length (select (of_user user_id) s.accounts)))) [
    | inl taken ↦ rw taken h
    | inr free ↦ rw free (open-IsSound s.next_id user_id (codes "KES") s.accounts s.transactions h)
  ];
}

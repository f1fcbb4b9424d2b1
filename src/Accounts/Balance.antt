-- ===== src/Accounts/Balance.antt =====
-- The ledger's promise. A balance is a cached sum of transactions: each deposit or withdrawal rounds
-- the balance and the transaction's amount on their own, so that the two may part by a cent.
use bridge_pay_backend.Common.{
  ℕ, suc, ◌+◌, ◌*◌, ◌≤◌, ◌<◌, ◌≡◌, true, false, List, [], ◌∷◌, Option, none, some, arith, is_key,
  if◌then◌else◌,
}
use bridge_pay_backend.Common.Int.{
  ℤ, pos, negsuc, pos_part, neg_part, ◌+ℤ◌, ◌-ℤ◌, ◌≤ℤ◌, ltb_ℤ, -ℤ_parts, int_laws,
}
use bridge_pay_backend.Common.Table.{All, any}
use bridge_pay_backend.Outside.{Outside, RoundsToNearest}
use bridge_pay_backend.Schema.{Account, Transaction, TransactionType, Db, cent, of_cents}
use bridge_pay_backend.Accounts.{scale, rounded, has_id}

abbrev pub moved : Option ℕ → ℕ → ℕ → ℤ
moved key id x = if is_key key id then pos x else pos 0

-- What the transactions have brought to an account, less what they have taken from it.
unfoldable pub net : ℕ → List Transaction → ℤ
net id [] = pos 0
net id (t ∷ ts) =
    net id ts +ℤ moved t.to_account_id id t.amount -ℤ moved t.from_account_id id t.amount

-- The ends of a transaction that moves money in or out of the platform, where a conversion may round.
unfoldable pub conversions : TransactionType → Option ℕ → Option ℕ → ℕ → ℕ
conversions TransactionType.transfer from to id = 0
conversions _ from to id = (if is_key to id then 1 else 0) + (if is_key from id then 1 else 0)

-- The cents by which an account's balance may part from the sum of its transactions.
unfoldable pub slack : ℕ → List Transaction → ℕ
unfolding conversions
slack id [] = 0
slack id (t ∷ ts) = slack id ts + conversions t.type t.from_account_id t.to_account_id id

abbrev pub Near : ℕ → ℤ → ℤ → Type 0
Near k a b =
    (pos_part a + neg_part b ≤ pos_part b + neg_part a + k)
    × (pos_part b + neg_part a ≤ pos_part a + neg_part b + k)

-- `bound` is above every id that has been given out.
pub record IsSoundRow (bound : ℕ) (ts : List Transaction) (a : Account) : Type 0 where
  pub derivable : Near (slack a.id ts) a.balance (net a.id ts)
  pub covered : pos 0 ≤ℤ a.balance
  pub known : a.id < bound

abbrev pub IsBelow : ℕ → Option ℕ → Type 0
IsBelow bound none = Unit
IsBelow bound (some k) = k < bound

abbrev pub KnownEnds : ℕ → Transaction → Type 0
KnownEnds bound t = IsBelow bound t.from_account_id × IsBelow bound t.to_account_id

-- An account of the table, where there is one.
abbrev pub IsAccount : List Account → Option ℕ → Type 0
IsAccount accounts none = Unit
IsAccount accounts (some k) = any (has_id k) accounts ≡ true

abbrev pub NamedEnds : List Account → Transaction → Type 0
NamedEnds accounts t = IsAccount accounts t.from_account_id × IsAccount accounts t.to_account_id

pub record IsSoundLedger (bound : ℕ) (accounts : List Account) (ts : List Transaction)
    : Type 0 where
  pub rows : All (IsSoundRow bound ts) accounts
  pub ends : All (KnownEnds bound) ts
  pub named : All (NamedEnds accounts) ts

-- No account is overdrawn, each balance is the sum of the account's transactions, up to a cent for each
-- deposit or withdrawal, and both ends of a transaction are rows of the accounts' table, where they are given.
abbrev pub IsSound : Db → Type 0
IsSound s = IsSoundLedger s.next_id s.accounts s.transactions

pub scale_parts :
    (b : ℤ) → (pos_part (scale b) ≡ pos_part b * cent) × (neg_part (scale b) ≡ neg_part b * cent)
unfolding scale of_cents ◌-ℤ◌
scale_parts (pos n) = (omega arith, omega arith)
scale_parts (negsuc n) = ground arith

module _ (o : Outside) (nearest : RoundsToNearest o) where
  -- The balance after a rounding is within half a cent of the sum that was rounded.
  rounded_near :
      (d : ℤ)
      → (2 * (pos_part (rounded o d) * cent + neg_part d)
          ≤ 2 * (pos_part d + neg_part (rounded o d) * cent) + cent)
        × (2 * (pos_part d + neg_part (rounded o d) * cent)
            ≤ 2 * (pos_part (rounded o d) * cent + neg_part d) + cent)
  unfolding rounded
  rounded_near (pos x) = (omega (arith, nearest.not_above x), omega (arith, nearest.not_below x))
  rounded_near (negsuc x) =
      let t : ℕ = o.to_cents (suc x) in
      let parts : pos_part (pos 0 -ℤ pos t) + t ≡ neg_part (pos 0 -ℤ pos t) =
        omega (arith, -ℤ_parts (pos 0) (pos t)) in
      let above : 2 * (t * cent) ≤ 2 * suc x + cent = nearest.not_above (suc x) in
      let below : 2 * suc x ≤ 2 * (t * cent) + cent = nearest.not_below (suc x) in
      (omega arith, omega arith)

  pub to_cents_exact : (n : ℕ) → o.to_cents (of_cents n) ≡ n
  unfolding of_cents
  to_cents_exact n = omega (arith, nearest.not_above (n * cent), nearest.not_below (n * cent))

  -- A balance and its sum, both less `x` rounded on its own, part by a cent more.
  pub withdraw-Near :
      (b n : ℤ) (k x : ℕ)
      → Near k b n
      → Near (k + 1) (rounded o (scale b -ℤ pos x)) (n +ℤ pos 0 -ℤ pos (o.to_cents x))
  withdraw-Near b n k x h = omega (
    int_laws,
    scale_parts b,
    rounded_near (scale b -ℤ pos x),
    nearest.not_above x,
    nearest.not_below x,
  )

  pub withdraw_covered :
      (b : ℤ) (x : ℕ) → ltb_ℤ (scale b) (pos x) ≡ false → pos 0 ≤ℤ rounded o (scale b -ℤ pos x)
  withdraw_covered b x c =
      let enough : pos x ≤ℤ scale b = ground arith in
      omega (int_laws, rounded_near (scale b -ℤ pos x))

  pub deposit-Near :
      (b n : ℤ) (k x : ℕ)
      → Near k b n
      → Near (k + 1) (rounded o (scale b +ℤ pos x)) (n +ℤ pos (o.to_cents x) -ℤ pos 0)
  deposit-Near b n k x h = omega (
    int_laws,
    scale_parts b,
    rounded_near (scale b +ℤ pos x),
    nearest.not_above x,
    nearest.not_below x,
  )

  pub deposit_covered : (b : ℤ) (x : ℕ) → pos 0 ≤ℤ b → pos 0 ≤ℤ rounded o (scale b +ℤ pos x)
  deposit_covered b x h = omega (int_laws, scale_parts b, rounded_near (scale b +ℤ pos x))

  -- Whole cents are added and taken exactly.
  pub rounded-add : (b : ℤ) (n : ℕ) → rounded o (scale b +ℤ pos (of_cents n)) ≡ b +ℤ pos n
  unfolding of_cents
  rounded-add b n = omega (int_laws, scale_parts b, rounded_near (scale b +ℤ pos (n * cent)))

  pub rounded-sub : (b : ℤ) (n : ℕ) → rounded o (scale b -ℤ pos (of_cents n)) ≡ b -ℤ pos n
  unfolding of_cents
  rounded-sub b n = omega (int_laws, scale_parts b, rounded_near (scale b -ℤ pos (n * cent)))

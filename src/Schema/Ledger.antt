-- ===== src/Schema/Ledger.antt =====
-- The tables of money: accounts, transactions, deposits, payouts (models.py of each module).
-- A `Decimal` is a count of 10^-10, so that cents times a rate of eight places is exact. Amounts that a
-- client gives are whole cents, and so are a balance and a transaction's amount, Numeric(18, 2). A
-- payout's or deposit's converted amount is a Decimal: the object has it unrounded, its row in cents.
use bridge_pay_backend.Common.{ℕ, ◌*◌, Option, Bool, true, false}
use bridge_pay_backend.Common.Int.{ℤ}
use bridge_pay_backend.Common.Text.{Str}

abbrev pub Decimal : Type 0
Decimal = ℕ

-- One cent in units of 10^-10.
abbrev pub cent : Decimal
cent = 100_000_000

-- A client's amount in cents as a Decimal.
unfoldable pub of_cents : ℕ → Decimal
of_cents n = n * cent

pub record Account : Type 0 where
  pub id : ℕ
  pub user_id : ℕ
  pub balance : ℤ
  pub currency : Str

pub data TransactionStatus : Type 0 where
  pending completed failed : TransactionStatus

pub data TransactionType : Type 0 where
  transfer deposit withdrawal : TransactionType

pub data Provider : Type 0 where
  mpesa stripe airtel : Provider

-- What the f-string of `reference_note` prints.
pub data ReferenceNote : Type 0 where
  note : Option Str → ReferenceNote
  external_payout : ReferenceNote
  reversal_of_payout : ℕ → ReferenceNote
  provider_deposit : Provider → ReferenceNote

pub record Transaction : Type 0 where
  pub id : ℕ
  pub from_account_id : Option ℕ
  pub to_account_id : Option ℕ
  pub amount : ℕ
  pub currency : Str
  pub status : TransactionStatus
  pub type : TransactionType
  pub reference_note : ReferenceNote

pub data DepositStatus : Type 0 where
  pending completed failed : DepositStatus

pub record Deposit : Type 0 where
  pub id : ℕ
  pub user_id : ℕ
  pub account_id : ℕ
  pub provider : Provider
  pub status : DepositStatus
  pub amount : ℕ
  pub currency : Str
  pub exchange_rate : Option Decimal
  pub converted_amount : Option Decimal
  pub external_reference : Str
  pub idempotency_key : Option Str
  pub failure_reason : Option Str
  pub completed_at : Option ℕ

pub data PayoutStatus : Type 0 where
  pending completed failed reversed : PayoutStatus

pub record Payout : Type 0 where
  pub id : ℕ
  pub user_id : ℕ
  pub account_id : ℕ
  pub provider : Provider
  pub status : PayoutStatus
  pub destination_reference : Str
  pub recipient_email : Str
  pub amount : ℕ
  pub currency : Str
  pub exchange_rate : Option Decimal
  pub converted_amount : Option Decimal
  pub external_reference : Option Str
  pub idempotency_key : Option Str
  pub failure_reason : Option Str
  pub transaction_id : Option ℕ
  pub completed_at : Option ℕ

-- `payout.status != "pending"` and the like, as tests.
unfoldable pub is_pending : PayoutStatus → Bool
is_pending PayoutStatus.pending = true
is_pending _ = false

unfoldable pub is_completed : PayoutStatus → Bool
is_completed PayoutStatus.completed = true
is_completed _ = false

unfoldable pub is_pending_deposit : DepositStatus → Bool
is_pending_deposit DepositStatus.pending = true
is_pending_deposit _ = false

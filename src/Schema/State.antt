-- ===== src/Schema/State.antt =====
-- What the services read and write: every table, newest row first; the supply of fresh ids that
-- stands for `uuid.uuid4`; and the exchange rate cache, which is the process's and not the database's.
use bridge_pay_backend.Common.{ℕ, List}
use bridge_pay_backend.Common.Text.{Str}
use bridge_pay_backend.Schema.Ledger.{Account, Transaction, Deposit, Payout, Decimal}
use bridge_pay_backend.Schema.People.{
  User, RefreshToken, SingleUseToken, Notification, AuditLog, PaymentMethod,
}

-- An entry of `_rate_cache`: the key's two currencies, the rate, and when it expires.
pub record CachedRate : Type 0 where
  pub from_currency : Str
  pub to_currency : Str
  pub rate : Decimal
  pub expires_at : ℕ

-- What the request for a rate and the reading of its answer give: a rate, as a count of 10^-8; the text of an
-- httpx.HTTPError, a KeyError or a ValueError; or one of the exceptions that are not caught: InvalidOperation, of
-- a rate that Decimal does not read, and TypeError, of an answer that has no tables where the code looks into
-- one. A rate is a number and not negative, as the European Central Bank's are; the code does not check it.
pub data Quote : Type 0 where
  quoted : Decimal → Quote
  refused : Str → Quote
  not_a_number not_a_mapping : Quote

pub record Db : Type 0 where
  pub next_id : ℕ
  pub users : List User
  pub accounts : List Account
  pub transactions : List Transaction
  pub deposits : List Deposit
  pub payouts : List Payout
  pub notifications : List Notification
  pub audit_logs : List AuditLog
  pub payment_methods : List PaymentMethod
  pub refresh_tokens : List RefreshToken
  pub verification_tokens : List SingleUseToken
  pub reset_tokens : List SingleUseToken
  pub handoff_codes : List SingleUseToken
  pub rate_cache : List CachedRate

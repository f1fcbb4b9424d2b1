-- ===== src/Schema/People.antt =====
-- The tables of people: users, tokens, notifications, audit logs, payment methods.
-- Prose made for display (a notification's title and body, a masked card number) is left out.
use bridge_pay_backend.Common.{ℕ, Bool, Option}
use bridge_pay_backend.Common.Text.{Str}
use bridge_pay_backend.Schema.Ledger.{Provider}

pub record User : Type 0 where
  pub id : ℕ
  pub email : Str
  pub hashed_password : Option Str
  pub google_id : Option Str
  pub full_name : Str
  pub is_active : Bool
  pub is_admin : Bool
  pub is_verified : Bool
  pub country : Option Str
  pub stripe_customer_id : Option Str

pub record RefreshToken : Type 0 where
  pub id : ℕ
  pub user_id : ℕ
  pub token_hash : Str
  pub revoked : Bool
  pub expires_at : ℕ

-- EmailVerificationToken, PasswordResetToken and OAuthHandoffCode have the same columns.
pub record SingleUseToken : Type 0 where
  pub id : ℕ
  pub user_id : ℕ
  pub token_hash : Str
  pub used : Bool
  pub expires_at : ℕ

pub data NotificationType : Type 0 where
  transfer_sent transfer_received deposit_completed deposit_failed : NotificationType
  payout_sent payout_failed payout_reversed security_alert account_update : NotificationType

pub record Notification : Type 0 where
  pub id : ℕ
  pub user_id : ℕ
  pub transaction_id : Option ℕ
  pub type : NotificationType
  pub is_read : Bool

pub record AuditLog : Type 0 where
  pub user_id : Option ℕ
  pub action : Str

pub data PaymentMethodType : Type 0 where
  card mobile_wallet : PaymentMethodType

pub record PaymentMethod : Type 0 where
  pub id : ℕ
  pub user_id : ℕ
  pub provider : Provider
  pub type : PaymentMethodType
  pub external_reference : Str
  pub is_default : Bool

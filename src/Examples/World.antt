-- ===== src/Examples/World.antt =====
-- A concrete outside world and a small database, for the runs of the examples.
use bridge_pay_backend.Common.{ℕ, ◌+◌, ◌/◌, arith, refl, true, false, [], ◌∷◌, Option, none, some}
use bridge_pay_backend.Common.Int.{pos, ◌+ℤ◌, ◌-ℤ◌}
use bridge_pay_backend.Common.Text.{Str, codes, str_eq}
use bridge_pay_backend.Errors.{Result, ok, err, signature_verification_error}
use bridge_pay_backend.Json.{Json, str, obj, field, end}
use bridge_pay_backend.Outside.{Outside, RoundsToNearest}
use bridge_pay_backend.Schema.{
  User, Account, Db, Decimal, quoted, Payout, PayoutStatus, Deposit, DepositStatus, Provider,
  Transaction, TransactionStatus, TransactionType, ReferenceNote, RefreshToken, SingleUseToken,
}
use bridge_pay_backend.System.{empty_db}
use bridge_pay_backend.Accounts.Balance.{IsSound, net, slack, conversions}
use bridge_pay_backend.Common.Table.{any}

-- Half a cent is rounded up.
abbrev pub half_up : Decimal → ℕ
half_up x = (x + 50_000_000) / 100_000_000

-- A signed body is the id of a payment intent that succeeded.
abbrev pub event_of : Str → Option Str → Result Json
event_of body none = err signature_verification_error
event_of body (some signature) = ok (
    obj (
      field (codes "type") (str (codes "payment_intent.succeeded")) (
        field (codes "data")
          (obj (field (codes "object") (obj (field (codes "id") (str body) end)) end)) end)))

-- Airtel's report of success.
abbrev pub report_of : Str → Result Json
report_of body = ok (
    obj (
      field (codes "transaction")
        (obj (field (codes "id") (str body) (field (codes "status_code") (str (codes "TS")) end)))
        end))

-- The digest is the key, and a hash is the text itself.
abbrev pub world : Outside
world = record {
  now = 1000;
  feed = λ f t. quoted 2;
  to_cents = half_up;
  repr = λ v. codes "value";
  id_text = λ n. n ∷ [];
  hash_refresh_token = λ s. s;
  hash_password = λ s. s;
  verify_password = str_eq;
  refresh_token_lifetime = 600;
  airtel_callback_secret = codes "k";
  hmac_sha256 = λ key body. key;
  json_loads = report_of;
  construct_event = event_of;
}

pub world-RoundsToNearest : RoundsToNearest world
world-RoundsToNearest = record { not_above = λ x. omega arith; not_below = λ x. omega arith }

abbrev pub alice : User
alice = record {
  id = 0;
  email = codes "a";
  hashed_password = some (codes "pw");
  google_id = none;
  full_name = codes "Alice";
  is_active = true;
  is_admin = false;
  is_verified = true;
  country = some (codes "KE");
  stripe_customer_id = none;
}

abbrev pub bob : User
bob = record alice { id = 1; email = codes "b"; full_name = codes "Bob" }

abbrev pub alice_account : Account
alice_account = record { id = 2; user_id = 0; balance = pos 1000; currency = codes "KES" }

abbrev pub bob_account : Account
bob_account = record { id = 3; user_id = 1; balance = pos 0; currency = codes "KES" }

abbrev pub first_deposit : Transaction
first_deposit = record {
  id = 9;
  from_account_id = none;
  to_account_id = some 2;
  amount = 1000;
  currency = codes "KES";
  status = TransactionStatus.completed;
  type = TransactionType.deposit;
  reference_note = ReferenceNote.provider_deposit Provider.mpesa;
}

abbrev pub pending_payout : Payout
pending_payout = record {
  id = 4;
  user_id = 0;
  account_id = 2;
  provider = Provider.mpesa;
  status = PayoutStatus.pending;
  destination_reference = codes "254712345678";
  recipient_email = codes "b";
  amount = 100;
  currency = codes "KES";
  exchange_rate = none;
  converted_amount = none;
  external_reference = some (codes "out");
  idempotency_key = none;
  failure_reason = none;
  transaction_id = none;
  completed_at = none;
}

abbrev pub pending_deposit : Deposit
pending_deposit = record {
  id = 5;
  user_id = 0;
  account_id = 2;
  provider = Provider.mpesa;
  status = DepositStatus.pending;
  amount = 70;
  currency = codes "kes";
  exchange_rate = none;
  converted_amount = none;
  external_reference = codes "in";
  idempotency_key = none;
  failure_reason = none;
  completed_at = none;
}

abbrev pub session_token : RefreshToken
session_token = record {
  id = 6;
  user_id = 0;
  token_hash = codes "t";
  revoked = false;
  expires_at = 5000;
}

abbrev pub reset_token : SingleUseToken
reset_token = record {
  id = 7;
  user_id = 0;
  token_hash = codes "v";
  used = false;
  expires_at = 5000;
}

abbrev pub bank : Db
bank = record empty_db {
  next_id = 10;
  users = alice ∷ bob ∷ [];
  accounts = alice_account ∷ bob_account ∷ [];
  transactions = first_deposit ∷ [];
  deposits = pending_deposit ∷ [];
  payouts = pending_payout ∷ [];
  refresh_tokens = session_token ∷ [];
  reset_tokens = reset_token ∷ [];
}

pub bank-IsSound : IsSound bank
unfolding net slack conversions any ◌+ℤ◌ ◌-ℤ◌
bank-IsSound = record {
  rows = (
    record { derivable = (omega arith, omega arith); covered = omega arith; known = omega arith },
    (
      record { derivable = (omega arith, omega arith); covered = omega arith; known = omega arith },
      tt,
    ),
  );
  ends = ((tt, omega arith), tt);
  named = ((tt, refl), tt);
}

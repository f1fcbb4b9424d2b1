-- ===== src/Outside.antt =====
-- What the program asks of code that is not its own: the clock, the exchange rate feed, the
-- database's rounding of a Numeric(18, 2) column, hashes, and the text of ids and of JSON values.
use bridge_pay_backend.Common.{ℕ, ◌+◌, ◌*◌, ◌≤◌, Bool, Option}
use bridge_pay_backend.Common.Text.{Str}
use bridge_pay_backend.Errors.{Result}
use bridge_pay_backend.Json.{Json}
use bridge_pay_backend.Schema.{Decimal, Quote, cent}

pub record Outside : Type 0 where
  -- `datetime.now(timezone.utc)` and `time.time()`
  pub now : ℕ
  -- The Frankfurter request and the reading of its answer.
  pub feed : Str → Str → Quote
  -- The cents that a Numeric(18, 2) column keeps of a value that is not negative.
  pub to_cents : Decimal → ℕ
  -- `f"{data}"` of a JSON value
  pub repr : Json → Str
  -- `str(...)` of a UUID
  pub id_text : ℕ → Str
  pub hash_refresh_token : Str → Str
  pub hash_password : Str → Str
  pub verify_password : Str → Str → Bool
  -- `settings.REFRESH_TOKEN_EXPIRE_DAYS`, in seconds
  pub refresh_token_lifetime : ℕ
  -- `settings.AIRTEL_CALLBACK_SECRET`, and the hex digest of HMAC-SHA256 under a key
  pub airtel_callback_secret : Str
  pub hmac_sha256 : Str → Str → Str
  -- `json.loads` of a request's body
  pub json_loads : Str → Result Json
  -- `stripe.Webhook.construct_event` of a body and a signature, under our secret
  pub construct_event : Str → Option Str → Result Json

-- PostgreSQL rounds a numeric to a nearest value of the column's scale.
pub record RoundsToNearest (o : Outside) : Type 0 where
  pub not_above : (x : Decimal) → 2 * (o.to_cents x * cent) ≤ 2 * x + cent
  pub not_below : (x : Decimal) → 2 * x ≤ 2 * (o.to_cents x * cent) + cent

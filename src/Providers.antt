-- ===== src/Providers.antt =====
-- What the mobile money providers answer to a request, as app/core/mpesa_client.py, app/core/airtel_client.py
-- and httpx hand it to the services, and how the services read it.
pub mod Tokens
pub mod Mpesa
pub mod Airtel
pub mod Google
pub mod Stripe
pub mod Amounts
use bridge_pay_backend.Common.{ℕ, ◌||◌, ◌++◌, false, Option, none, some, ◌==◌}
use bridge_pay_backend.Common.Text.{Str, codes}
use bridge_pay_backend.Errors.{
  Error, Result, ok, err, ◌>>=◌, ◌>>◌, guard, value_error, invalid_phone_number,
}
use bridge_pay_backend.Json.{Json, null, bool, obj, end, get_or, is_truthy, as_text}
use bridge_pay_backend.Outside.{Outside}

-- `failed e`: a token, a credential or the request itself raised. `answered status text body`: a response,
-- with `response.json()`, none where it raises.
pub data Reply : Type 0 where
  failed : Error → Reply
  answered : ℕ → Str → Option Json → Reply

-- `response.json()`
unfoldable pub json_of : Option Json → Result Json
json_of none = err value_error
json_of (some data_) = ok data_

-- What a provider's reply is read as: the text of the reference that it answers with, or an error.
-- `refuse` is the exception class, which takes a text.
module _ (o : Outside) (refuse : Str → Error) where
  -- M-Pesa answers with an id of its own under `key`.
  unfoldable pub read_mpesa : Str → Str → Str → Reply → Result Str
  unfolding json_of
  read_mpesa key refused missing (failed e) = err e
  read_mpesa key refused missing (answered status text body) = do
    guard (status == 200) (refuse (refused ++ text))
    answer ← json_of body
    id ← get_or answer key null
    guard (is_truthy id) (refuse (missing ++ o.repr answer))
    as_text id

  -- Airtel answers whether it accepts the id that it was sent.
  unfoldable pub read_airtel : Str → Str → Str → Reply → Result Str
  unfolding json_of
  read_airtel id refused rejected (failed e) = err e
  read_airtel id refused rejected (answered status text body) = do
    guard ((status == 200) || (status == 201)) (refuse (refused ++ text))
    answer ← json_of body
    outcome ← get_or answer (codes "status") (obj end)
    success ← get_or outcome (codes "success") (bool false)
    guard (is_truthy success) (refuse (rejected ++ o.repr answer))
    ok id

-- `except ValueError as e: raise InvalidPhoneNumber(str(e))`
unfoldable pub checked_phone : Result Str → Result Str
checked_phone (ok phone) = ok phone
checked_phone (err value_error) = err invalid_phone_number
checked_phone (err e) = err e

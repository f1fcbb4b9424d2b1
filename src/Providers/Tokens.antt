-- ===== src/Providers/Tokens.antt =====
-- What app/core/mpesa_client.py and app/core/airtel_client.py share: the access token and its cache, and the
-- network that the code asks.
pub mod Reuse
use bridge_pay_backend.Common.{
  ℕ, Bool, true, false, ◌&&◌, ◌||◌, ◌*◌, ◌+◌, ◌-◌, ◌==◌, leb, Option, none, some, [], ◌∷◌,
  if◌then◌else◌,
}
use bridge_pay_backend.Common.Int.{ℤ, pos, ◌+ℤ◌, ◌-ℤ◌, ltb_ℤ}
use bridge_pay_backend.Common.Text.{Str, codes, stripped}
use bridge_pay_backend.Errors.{Error, Result, ok, err, ◌>>=◌, http_error, type_error, value_error}
use bridge_pay_backend.Json.{Json, Fields, num, bool, str, get_item, get_or, is_truthy}
use bridge_pay_backend.Providers.{Reply, failed, answered, json_of}

pub data Method : Type 0 where
  get post : Method

-- A call of httpx: the headers, the query (`params`), and the body (`json` or `data`).
pub record HttpRequest : Type 0 where
  pub method : Method
  pub url : Str
  pub headers : Fields
  pub params : Fields
  pub body : Fields

-- What is not ours: the server that is called, base64, the public key in a file, and `f"{data}"`.
pub record Network : Type 0 where
  pub send : HttpRequest → Reply
  pub base64 : Str → Str
  -- RSA under the key in the file of that path; the first text is the path.
  pub encrypt : Str → Str → Result Str
  pub text_of : Json → Str

-- `_token_cache`
pub record CachedToken : Type 0 where
  pub token : Json
  pub expires_at : ℤ

-- `response.raise_for_status()`
unfoldable pub raise_for_status : Reply → Result (Option Json)
raise_for_status (failed e) = err e
raise_for_status (answered status text body) =
    if leb 200 status && leb status 299 then ok body else err (http_error text)

unfoldable pub is_ascii_digit : ℕ → Bool
is_ascii_digit c = leb b'0' c && leb c b'9'

-- The ASCII digits of `int(text)`, an underscore between two of them; `after` tells that the last was a digit.
unfoldable pub number_from : ℕ → Bool → Str → Result ℕ
unfolding is_ascii_digit
number_from n after [] = if after then ok n else err value_error
number_from n after (c ∷ s) =
    let rest =
      number_from (if is_ascii_digit c then n * 10 + (c - b'0') else n) (is_ascii_digit c) s in
    if is_ascii_digit c || ((c == b'_') && after) then rest else err value_error

-- Behind the sign.
unfoldable pub signed_number : Str → Result ℤ
unfolding number_from
signed_number [] = err value_error
signed_number (c ∷ s) =
    if c == b'-'
    then (number_from 0 false s >>= λ n. ok (pos 0 -ℤ pos n))
    else (number_from 0 false (if c == b'+' then s else c ∷ s) >>= λ n. ok (pos n))

-- `int(v)`
unfoldable pub int_of : Json → Result ℤ
unfolding signed_number stripped
int_of (num z) = ok z
int_of (bool b) = ok (pos (if b then 1 else 0))
int_of (str s) = signed_number (stripped s)
int_of _ = err type_error

-- What a server's answer at a time puts into the cache; a token is refreshed a minute early.
unfoldable pub read_token : ℕ → Reply → Result CachedToken
unfolding raise_for_status json_of int_of
read_token now reply = do
  body ← raise_for_status reply
  answer ← json_of body
  token ← get_item answer (codes "access_token")
  lifetime ← get_or answer (codes "expires_in") (num (pos 3599))
  expires_in ← int_of lifetime
  ok (record { token = token; expires_at = pos now +ℤ expires_in -ℤ pos 60 })

-- `_token_cache.get("token") and _token_cache.get("expires_at", 0) > now`
unfoldable pub is_live : ℕ → CachedToken → Bool
is_live now cached = is_truthy cached.token && ltb_ℤ (pos now) cached.expires_at

unfoldable pub keep_token :
    Option CachedToken → Result CachedToken → Result Json × Option CachedToken
keep_token cache (ok cached) = (ok cached.token, some cached)
keep_token cache (err e) = (err e, cache)

-- `get_access_token` of both clients: the token or an error, and the cache behind it.
unfoldable pub get_access_token : ℕ → Reply → Option CachedToken → Result Json × Option CachedToken
unfolding keep_token read_token is_live
get_access_token now reply none = keep_token none (read_token now reply)
get_access_token now reply (some cached) =
    if is_live now cached
    then (ok cached.token, some cached)
    else keep_token (some cached) (read_token now reply)

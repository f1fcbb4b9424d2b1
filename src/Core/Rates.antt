-- ===== src/Core/Rates.antt =====
-- app/core/exchange_rate_client.py: rates with an hour's cache, and conversion of whole cents. A rate
-- is a count of 10^-8, so cents times a rate is a Decimal, exactly. `feed` is what the request to the
-- Frankfurter API and the reading of its answer give.
pub mod Cache
use bridge_pay_backend.Common.{
  ℕ, ◌+◌, ◌*◌, ◌&&◌, List, [], ◌∷◌, ◌++◌, Option, none, some, ltb, if◌then◌else◌,
}
use bridge_pay_backend.Common.Text.{Str, codes, str_eq, upper}
use bridge_pay_backend.Errors.{Error, exchange_rate_unavailable, invalid_operation, type_error}
use bridge_pay_backend.Schema.{
  Decimal, Quote, quoted, refused, not_a_number, not_a_mapping, CachedRate,
}
use bridge_pay_backend.Session.{Action, pure, raise, gets, modify, option_case, ◌>>=◌, ◌>>◌}

abbrev pub Feed : Type 0
Feed = Str → Str → Quote

-- `_CACHE_TTL_SECONDS`
abbrev pub cache_ttl_seconds : ℕ
cache_ttl_seconds = 60 * 60

-- Decimal(1)
abbrev pub rate_one : Decimal
rate_one = 100_000_000

-- `_rate_cache.get((from_currency, to_currency))`
unfoldable pub find_rate : Str → Str → List CachedRate → Option CachedRate
find_rate f t [] = none
find_rate f t (c ∷ cs) =
    if str_eq c.from_currency f && str_eq c.to_currency t then some c else find_rate f t cs

-- The cached rate, if it has not expired.
unfoldable pub live_rate : ℕ → Option CachedRate → Option Decimal
live_rate now none = none
live_rate now (some c) = if ltb now c.expires_at then some c.rate else none

-- `raise ExchangeRateUnavailable(...)`
unfoldable pub unavailable : Str → Str → Str → Error
unavailable f t e =
    exchange_rate_unavailable
      (codes "Could not fetch exchange rate " ++ (f ++ (codes "->" ++ (t ++ (codes ": " ++ e)))))

-- The new entry in front of an older one of the same key.
unfoldable pub remember : ℕ → Str → Str → Decimal → Action Decimal
remember now f t r = do
  modify (λ s. record s {
    rate_cache =
        record {
          from_currency = f;
          to_currency = t;
          rate = r;
          expires_at = now + cache_ttl_seconds;
        }
        ∷ s.rate_cache;
  })
  pure r

unfoldable pub fetch_rate : ℕ → Feed → Str → Str → Action Decimal
unfolding unavailable remember
fetch_rate now feed f t = elim (feed f t) [
  | quoted r ↦ remember now f t r
  | refused e ↦ raise (unavailable f t e)
  | not_a_number ↦ raise invalid_operation
  | not_a_mapping ↦ raise type_error
]

unfoldable pub get_exchange_rate : ℕ → Feed → Str → Str → Action Decimal
get_exchange_rate now feed from_currency to_currency =
    let f = upper from_currency in
    let t = upper to_currency in
    if str_eq f t then pure rate_one else do
      cached ← gets (λ s. live_rate now (find_rate f t s.rate_cache))
      option_case cached (fetch_rate now feed f t) pure

-- (converted_amount, exchange_rate) for an amount in cents
unfoldable pub convert : ℕ → Feed → ℕ → Str → Str → Action (Decimal × Decimal)
convert now feed amount from_currency to_currency = do
  rate ← get_exchange_rate now feed from_currency to_currency
  pure (amount * rate, rate)

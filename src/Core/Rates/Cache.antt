-- ===== src/Core/Rates/Cache.antt =====
-- Proofs about the rate cache of app/core/exchange_rate_client.py.
use bridge_pay_backend.Common.{ℕ, ◌+◌, ◌<◌, ◌≡◌, refl, false, none, arith}
use bridge_pay_backend.Common.Text.{Str, str_eq, str_eq_refl, upper}
use bridge_pay_backend.Errors.{ok, invalid_operation, type_error}
use bridge_pay_backend.Schema.{
  Decimal, Quote, quoted, refused, not_a_number, not_a_mapping, Db, of_cents,
}
use bridge_pay_backend.Session.{raise, ◌>>=◌}
use bridge_pay_backend.Session.Keeps.{
  Keeps, Keeps-bind, Leads-modify, Keeps-raise, Keeps-pure, keeps_rules,
}
use bridge_pay_backend.Core.Rates.{
  Feed, cache_ttl_seconds, rate_one, find_rate, live_rate, unavailable, remember, fetch_rate,
  get_exchange_rate, convert,
}

-- A rate that had to be fetched serves every call of the next hour, whatever the feed says then.
pub get_exchange_rate_within_ttl :
    (now later : ℕ) (feed feed' : Feed) (f t : Str) (r : Decimal) (s : Db)
    → str_eq (upper f) (upper t) ≡ false
    → live_rate now (find_rate (upper f) (upper t) s.rate_cache) ≡ none
    → feed (upper f) (upper t) ≡ quoted r
    → later < now + cache_ttl_seconds
    → let (first, s') = get_exchange_rate now feed f t s in
      (first ≡ ok r) × (get_exchange_rate later feed' f t s' ≡ (ok r, s'))
unfolding get_exchange_rate fetch_rate find_rate live_rate ◌>>=◌
get_exchange_rate_within_ttl now later feed feed' f t r s ne stale got soon =
    ground (arith, str_eq_refl (upper f), str_eq_refl (upper t))

-- Currencies that differ in case alone are converted at 1, with no request: a cent stays a cent.
pub convert_same_currency :
    (now : ℕ) (feed : Feed) (amount : ℕ) (f t : Str) (s : Db)
    → upper f ≡ upper t
    → convert now feed amount f t s ≡ (ok (of_cents amount, rate_one), s)
unfolding convert get_exchange_rate of_cents ◌>>=◌
convert_same_currency now feed amount f t s e = rw e (rw (str_eq_refl (upper t)) refl)

-- The cache is all that a conversion may change.
module _ {P : Db → Type 0}
    (stable : (s : Db) (cache : _) → P s → P (record s { rate_cache = cache })) where
  Keeps-fetch_rate : (now : ℕ) (feed : Feed) (f t : Str) → Keeps P (fetch_rate now feed f t)
  unfolding fetch_rate
  Keeps-fetch_rate now feed f t = quote (feed f t)
    where
      quote :
          (q : Quote)
          → Keeps P (elim q [
            | quoted r ↦ remember now f t r
            | refused e ↦ raise (unavailable f t e)
            | not_a_number ↦ raise invalid_operation
            | not_a_mapping ↦ raise type_error
          ])
      quote (quoted r) =
          Keeps-bind {P = P} _ _ (Leads-modify {P = P} {Q = P} _ (λ s h. stable s _ h))
            (λ _. Keeps-pure r)
      quote (refused e) = Keeps-raise _
      quote not_a_number = Keeps-raise _
      quote not_a_mapping = Keeps-raise _

  pub Keeps-get_exchange_rate :
      (now : ℕ) (feed : Feed) (f t : Str) → Keeps P (get_exchange_rate now feed f t)
  unfolding get_exchange_rate
  Keeps-get_exchange_rate now feed f t = search (keeps_rules, Keeps-fetch_rate)

  pub Keeps-convert :
      (now : ℕ) (feed : Feed) (amount : ℕ) (f t : Str) → Keeps P (convert now feed amount f t)
  unfolding convert
  Keeps-convert now feed amount f t = search (keeps_rules, Keeps-get_exchange_rate)

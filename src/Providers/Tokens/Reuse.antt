-- ===== src/Providers/Tokens/Reuse.antt =====
-- Proofs about `get_access_token` of app/core/mpesa_client.py and app/core/airtel_client.py.
use bridge_pay_backend.Common.{
  ℕ, ◌+◌, ◌≡◌, refl, true, false, ◌&&◌, leb, ltb, Option, none, some, arith, if◌then◌else◌,
}
use bridge_pay_backend.Common.Int.{pos, ◌+ℤ◌, ◌-ℤ◌, ltb_ℤ, int_laws}
use bridge_pay_backend.Common.Text.{Str, codes}
use bridge_pay_backend.Errors.{ok}
use bridge_pay_backend.Json.{Json, num, get_item, get_or, is_truthy}
use bridge_pay_backend.Providers.{Reply, answered, json_of}
use bridge_pay_backend.Providers.Tokens.{
  CachedToken, get_access_token, keep_token, read_token, is_live, int_of, raise_for_status,
}

-- A minute before the end of the token's time.
ltb-lifetime :
    (now later lifetime : ℕ)
    → ltb_ℤ (pos later) (pos now +ℤ pos lifetime -ℤ pos 60) ≡ ltb (later + 60) (now + lifetime)
ltb-lifetime now later lifetime = grind (arith, int_laws)

-- No token in the cache is used at this time.
abbrev pub IsStale : ℕ → Option CachedToken → Type 0
IsStale now none = Unit
IsStale now (some c) = is_live now c ≡ false

module _ (now status lifetime : ℕ) (text : Str) (answer token time : Json)
    (success : (leb 200 status && leb status 299) ≡ true)
    (has_token : get_item answer (codes "access_token") ≡ ok token)
    (has_time : get_or answer (codes "expires_in") (num (pos 3599)) ≡ ok time)
    (in_seconds : int_of time ≡ ok (pos lifetime)) where
  abbrev fetched : CachedToken
  fetched = record { token = token; expires_at = pos now +ℤ pos lifetime -ℤ pos 60 }

  read_token-fetched : read_token now (answered status text (some answer)) ≡ ok fetched
  unfolding read_token raise_for_status json_of
  read_token-fetched = rw success (rw (has_token, has_time) (rw in_seconds refl))

  asked :
      (cache : Option CachedToken)
      → IsStale now cache
      → get_access_token now (answered status text (some answer)) cache ≡ (ok token, some fetched)
  unfolding get_access_token keep_token
  asked none stale = rw read_token-fetched refl
  asked (some c) stale = rw (stale, read_token-fetched) refl

-- A token that M-Pesa or Airtel gives for a number of seconds, where the cache has none that lives, is given out,
-- and a call at any other time gives it again with no request exactly when more than a minute of those seconds is
-- left then; otherwise the server's new answer is taken.
pub get_access_token_reused :
    (now later status lifetime : ℕ) (text : Str) (answer token time : Json)
    (cache : Option CachedToken) (reply' : Reply)
    → (leb 200 status && leb status 299) ≡ true
    → get_item answer (codes "access_token") ≡ ok token
    → get_or answer (codes "expires_in") (num (pos 3599)) ≡ ok time
    → int_of time ≡ ok (pos lifetime)
    → is_truthy token ≡ true
    → IsStale now cache
    → let (first, cache') = get_access_token now (answered status text (some answer)) cache in
      (first ≡ ok token)
      × (get_access_token later reply' cache' ≡ (
          if ltb (later + 60) (now + lifetime)
          then (ok token, cache')
          else keep_token cache' (read_token later reply')))
unfolding get_access_token is_live
get_access_token_reused now later status lifetime text answer token time cache reply' success
      has_token has_time in_seconds full stale =
    rw
      (asked now status lifetime text answer token time success has_token has_time in_seconds cache
        stale)
      (refl, rw (full, ltb-lifetime now later lifetime) refl)

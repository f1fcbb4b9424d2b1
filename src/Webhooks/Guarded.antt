-- ===== src/Webhooks/Guarded.antt =====
-- Proofs about the signatures of app/modules/webhooks/service.py and app/core/airtel_client.py.
use bridge_pay_backend.Common.{◌≡◌, ◌⊎◌, refl, true, false, Option, none, some, arith, inl, inr}
use bridge_pay_backend.Common.Text.{Str, eq_of_str_eq, str_eq_refl, is_given, is_ascii}
use bridge_pay_backend.Errors.{Error, ok, err, type_error, invalid_webhook_signature}
use bridge_pay_backend.Outside.{Outside}
use bridge_pay_backend.Schema.{Db}
use bridge_pay_backend.Session.{endpoint, ◌>>=◌}
use bridge_pay_backend.Webhooks.{
  verify_callback_signature, verify_airtel_or_raise, digest_matches, compare_digest,
  dispatch_airtel_collection_callback, dispatch_airtel_disbursement_callback,
  airtel_collection_callback, airtel_disbursement_callback,
}

-- The signature is the digest of the body under a secret that is set.
abbrev pub IsSignedBody : Outside → Str → Option Str → Type 0
IsSignedBody o raw_body signature =
    (signature ≡ some (o.hmac_sha256 o.airtel_callback_secret raw_body))
    × (is_given (some o.airtel_callback_secret) ≡ true)

-- A callback that passes for Airtel's carries the digest of its body under a secret that is set: with no
-- secret configured every callback is refused.
pub verify_callback_signature_sound :
    (o : Outside) (raw_body : Str) (signature : Option Str)
    → verify_callback_signature o raw_body signature ≡ ok true
    → (signature ≡ some (o.hmac_sha256 o.airtel_callback_secret raw_body))
      × (is_given (some o.airtel_callback_secret) ≡ true)
unfolding verify_callback_signature digest_matches compare_digest
verify_callback_signature_sound o raw_body none h = cc
verify_callback_signature_sound o raw_body (some s) h =
    ground (arith, eq_of_str_eq (o.hmac_sha256 o.airtel_callback_secret raw_body) s)

-- A callback that carries the digest of its body, which is not empty and in ASCII, under a secret that is set
-- passes for Airtel's.
pub verify_callback_signature_complete :
    (o : Outside) (raw_body digest : Str)
    → o.hmac_sha256 o.airtel_callback_secret raw_body ≡ digest
    → is_given (some digest) ≡ true
    → is_ascii digest ≡ true
    → is_given (some o.airtel_callback_secret) ≡ true
    → verify_callback_signature o raw_body (some digest) ≡ ok true
unfolding verify_callback_signature digest_matches compare_digest
verify_callback_signature_complete o raw_body digest e given ascii set =
    rw (given, set, e, ascii) (rw (str_eq_refl digest) refl)

-- The check says yes, or no, or a digest that is compared is not in ASCII.
verify-cases :
    (o : Outside) (raw_body : Str) (signature : Option Str)
    → (verify_callback_signature o raw_body signature ≡ ok true)
      ⊎ (verify_callback_signature o raw_body signature ≡ ok false)
      ⊎ (verify_callback_signature o raw_body signature ≡ err type_error)
unfolding verify_callback_signature digest_matches compare_digest
verify-cases o raw_body none = ground arith
verify-cases o raw_body (some s) = ground arith

abbrev pub RefusedWith : Error → Type 0
RefusedWith e = (e ≡ invalid_webhook_signature) ⊎ (e ≡ type_error)

-- No callback that Airtel's secret does not sign has any effect: where the signature is not the digest of the body
-- under the secret, or no secret is set, both of Airtel's routes end in an error, of an invalid signature or of a
-- text that cannot be compared, and every table is as it was.
pub airtel_callbacks_forged :
    (o : Outside) (raw_body : Str) (signature : Option Str) (s : Db)
    → ¬ (IsSignedBody o raw_body signature)
    → (e : Error) × RefusedWith e
      × (airtel_collection_callback o raw_body signature s ≡ (err e, s))
      × (airtel_disbursement_callback o raw_body signature s ≡ (err e, s))
unfolding airtel_collection_callback dispatch_airtel_collection_callback
    airtel_disbursement_callback dispatch_airtel_disbursement_callback verify_airtel_or_raise
    endpoint ◌>>=◌
airtel_callbacks_forged o raw_body signature s forged = elim (verify-cases o raw_body signature) [
  | inl e ↦ absurd (forged (verify_callback_signature_sound o raw_body signature e))
  | inr (inl e) ↦ (invalid_webhook_signature, inl refl, rw e refl, rw e refl)
  | inr (inr e) ↦ (type_error, inr refl, rw e refl, rw e refl)
]

-- ===== src/Payouts.antt =====
-- app/modules/payouts/repository.py. A Payout object is not its row: a converted amount is rounded in the
-- row alone. An operation that changes the object gives the changed object back.
pub mod Wallet
pub mod Soundness
pub mod Invariant
pub mod Redelivery
pub mod Refund
pub mod Retry
pub mod Lifecycle
pub mod Mobile
pub mod Stripe
pub mod Callbacks
pub mod Router
use bridge_pay_backend.Common.{
  ℕ, Bool, true, false, ◌&&◌, List, ◌∷◌, Option, none, some, ◌==◌, ◌*◌, not, leb,
}
use bridge_pay_backend.Common.Table.{select, update, length, paginate}
use bridge_pay_backend.Common.Text.{Str, is_text, too_long}
use bridge_pay_backend.Errors.{integrity_error, data_error}
use bridge_pay_backend.Json.{Json, as_nullable_text}
use bridge_pay_backend.Outside.{Outside}
use bridge_pay_backend.Schema.{Payout, PayoutStatus, Provider, Decimal, cent}
use bridge_pay_backend.Session.{
  Action, pure, lift, gets, raise_if, modify, fresh_id, ◌>>=◌, ◌>>◌, scalar_one_or_none,
}

abbrev pub has_id : ℕ → Payout → Bool
has_id id p = p.id == id

abbrev pub has_reference : Str → Payout → Bool
has_reference reference p = is_text p.external_reference reference

abbrev pub has_key : ℕ → Str → Payout → Bool
has_key user_id key p = (p.user_id == user_id) && is_text p.idempotency_key key

-- What a Numeric(18, 2) column keeps of a Decimal that may be NULL.
unfoldable pub stored : Outside → Option Decimal → Option Decimal
stored o none = none
stored o (some x) = some (o.to_cents x * cent)

-- `PayoutRepository.create`: the object; the row has what its columns keep. A card's token may be too long for its
-- String(255) column; the other texts are bounded where they come from.
unfoldable pub create :
    Outside
    → ℕ
    → ℕ
    → Provider
    → Str
    → Str
    → ℕ
    → Str
    → Option Str
    → Option Decimal
    → Option Decimal
    → Option ℕ
    → Action Payout
unfolding stored
create o user_id account_id provider destination_reference recipient_email amount currency
      idempotency_key exchange_rate converted_amount transaction_id =
    do
      raise_if (too_long 255 destination_reference) data_error
      id ← fresh_id
      let payout : Payout = record {
        id = id;
        user_id = user_id;
        account_id = account_id;
        provider = provider;
        status = PayoutStatus.pending;
        destination_reference = destination_reference;
        recipient_email = recipient_email;
        amount = amount;
        currency = currency;
        exchange_rate = exchange_rate;
        converted_amount = converted_amount;
        external_reference = none;
        idempotency_key = idempotency_key;
        failure_reason = none;
        transaction_id = transaction_id;
        completed_at = none;
      }
      let row : Payout = record payout { converted_amount = stored o converted_amount }
      modify (λ s. record s { payouts = row ∷ s.payouts })
      pure payout

-- `PayoutRepository.get_by_external_reference`
unfoldable pub get_by_external_reference : Str → Action (Option Payout)
get_by_external_reference external_reference = do
  rows ← gets (λ s. select (has_reference external_reference) s.payouts)
  lift (scalar_one_or_none rows)

-- `PayoutRepository.get_by_idempotency_key_for_user`
unfoldable pub get_by_idempotency_key_for_user : ℕ → Str → Action (Option Payout)
get_by_idempotency_key_for_user user_id idempotency_key = do
  rows ← gets (λ s. select (has_key user_id idempotency_key) s.payouts)
  lift (scalar_one_or_none rows)

-- `PayoutRepository.list_for_user`
unfoldable pub list_for_user : ℕ → ℕ → ℕ → Action (List Payout × ℕ)
list_for_user user_id page page_size = do
  rows ← gets (λ s. select (λ p. p.user_id == user_id) s.payouts)
  pure (paginate page page_size rows, length rows)

-- A change of the object's columns, and its flush into the row of its id.
unfoldable pub change : (Payout → Payout) → Payout → Action Payout
change f payout = do
  modify (λ s. record s { payouts = update (has_id payout.id) f s.payouts })
  pure (f payout)

-- `PayoutRepository.set_conversion`; the row has the amount in cents.
unfoldable pub set_conversion : Outside → Payout → Option Decimal → Option Decimal → Action Payout
unfolding stored
set_conversion o payout exchange_rate converted_amount = do
  change
      (λ p. record p {
        exchange_rate = exchange_rate;
        converted_amount = stored o converted_amount;
      })
      payout
  pure (record payout { exchange_rate = exchange_rate; converted_amount = converted_amount })

-- `PayoutRepository.set_external_reference`; the column is unique.
unfoldable pub set_external_reference : Payout → Str → Action Payout
set_external_reference payout external_reference = do
  raise_if (too_long 255 external_reference) data_error
  rows ←
      gets
        (λ s. select (λ p. has_reference external_reference p && not (p.id == payout.id)) s.payouts)
  raise_if (leb 1 (length rows)) integrity_error
  change (λ p. record p { external_reference = some external_reference }) payout

unfoldable pub completed : ℕ → Payout → Payout
completed now p = record p { status = PayoutStatus.completed; completed_at = some now }

-- `PayoutRepository.mark_completed`
unfoldable pub mark_completed : Outside → Payout → Action Payout
unfolding completed
mark_completed o payout = change (completed o.now) payout

-- `PayoutRepository.mark_failed`
unfoldable pub mark_failed : Payout → Json → Action Payout
mark_failed payout reason = do
  text ← lift (as_nullable_text 500 reason)
  change (λ p. record p { status = PayoutStatus.failed; failure_reason = text }) payout

unfoldable pub reversed : Option Str → Payout → Payout
reversed reason p = record p { status = PayoutStatus.reversed; failure_reason = reason }

-- `PayoutRepository.mark_reversed`
unfoldable pub mark_reversed : Payout → Json → Action Payout
unfolding reversed
mark_reversed payout reason = do
  text ← lift (as_nullable_text 500 reason)
  change (reversed text) payout

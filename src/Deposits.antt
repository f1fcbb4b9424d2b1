-- ===== src/Deposits.antt =====
-- app/modules/deposits/repository.py. An operation that changes the object gives the changed object back.
pub mod Credit
pub mod Intake
pub mod Callbacks
pub mod Router
pub mod Soundness
pub mod Redelivery
pub mod Effect
pub mod Settled
use bridge_pay_backend.Common.{ℕ, Bool, ◌&&◌, List, ◌∷◌, Option, none, some, ◌==◌, ◌*◌, leb}
use bridge_pay_backend.Common.Table.{select, update, length, paginate}
use bridge_pay_backend.Common.Text.{Str, str_eq, is_text, too_long}
use bridge_pay_backend.Errors.{integrity_error, data_error}
use bridge_pay_backend.Json.{Json, as_nullable_text}
use bridge_pay_backend.Outside.{Outside}
use bridge_pay_backend.Schema.{Deposit, DepositStatus, Provider, Decimal, cent}
use bridge_pay_backend.Session.{
  Action, pure, lift, gets, raise_if, modify, fresh_id, ◌>>=◌, ◌>>◌, scalar_one_or_none,
}

abbrev pub has_id : ℕ → Deposit → Bool
has_id id d = d.id == id

abbrev pub has_reference : Str → Deposit → Bool
has_reference reference d = str_eq d.external_reference reference

abbrev pub has_key : ℕ → Str → Deposit → Bool
has_key user_id key d = (d.user_id == user_id) && is_text d.idempotency_key key

-- `DepositRepository.create`, with no conversion yet; `external_reference` is unique.
unfoldable pub create : ℕ → ℕ → Provider → ℕ → Str → Str → Option Str → Action Deposit
create user_id account_id provider amount currency external_reference idempotency_key = do
  raise_if (too_long 255 external_reference) data_error
  rows ← gets (λ s. select (has_reference external_reference) s.deposits)
  raise_if (leb 1 (length rows)) integrity_error
  id ← fresh_id
  let deposit : Deposit = record {
    id = id;
    user_id = user_id;
    account_id = account_id;
    provider = provider;
    status = DepositStatus.pending;
    amount = amount;
    currency = currency;
    exchange_rate = none;
    converted_amount = none;
    external_reference = external_reference;
    idempotency_key = idempotency_key;
    failure_reason = none;
    completed_at = none;
  }
  modify (λ s. record s { deposits = deposit ∷ s.deposits })
  pure deposit

-- `DepositRepository.get_by_external_reference`
unfoldable pub get_by_external_reference : Str → Action (Option Deposit)
get_by_external_reference external_reference = do
  rows ← gets (λ s. select (has_reference external_reference) s.deposits)
  lift (scalar_one_or_none rows)

-- `DepositRepository.get_by_idempotency_key_for_user`
unfoldable pub get_by_idempotency_key_for_user : ℕ → Str → Action (Option Deposit)
get_by_idempotency_key_for_user user_id idempotency_key = do
  rows ← gets (λ s. select (has_key user_id idempotency_key) s.deposits)
  lift (scalar_one_or_none rows)

-- `DepositRepository.list_for_user`
unfoldable pub list_for_user : ℕ → ℕ → ℕ → Action (List Deposit × ℕ)
list_for_user user_id page page_size = do
  rows ← gets (λ s. select (λ d. d.user_id == user_id) s.deposits)
  pure (paginate page page_size rows, length rows)

-- A change of columns, in the row of the object's id.
unfoldable pub change : (Deposit → Deposit) → ℕ → Action (Unit {0})
change f id = modify (λ s. record s { deposits = update (has_id id) f s.deposits })

-- `DepositRepository.set_conversion`: the row keeps the amount in cents.
unfoldable pub converted : Outside → Decimal → Decimal → Deposit → Deposit
converted o rate amount d = record d {
  exchange_rate = some rate;
  converted_amount = some (o.to_cents amount * cent);
}

unfoldable pub set_conversion : Outside → ℕ → Decimal → Decimal → Action (Unit {0})
unfolding converted
set_conversion o id exchange_rate converted_amount =
    change (converted o exchange_rate converted_amount) id

unfoldable pub completed : ℕ → Deposit → Deposit
completed now d = record d { status = DepositStatus.completed; completed_at = some now }

-- `DepositRepository.mark_completed`
unfoldable pub mark_completed : Outside → ℕ → Action (Unit {0})
unfolding completed
mark_completed o id = change (completed o.now) id

unfoldable pub failed : Option Str → Deposit → Deposit
failed reason d = record d { status = DepositStatus.failed; failure_reason = reason }

-- `DepositRepository.mark_failed`
unfoldable pub mark_failed : ℕ → Json → Action (Unit {0})
unfolding failed
mark_failed id reason = do text ← lift (as_nullable_text 500 reason); change (failed text) id

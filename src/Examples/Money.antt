-- ===== src/Examples/Money.antt =====
-- Runs that move money.
use bridge_pay_backend.Common.{ℕ, ◌≡◌, ◌≢◌, refl, arith, List, [], ◌∷◌, none, some, inr, ◌==◌}
use bridge_pay_backend.Common.Int.{pos, ◌+ℤ◌, ◌-ℤ◌, ◌≤ℤ◌}
use bridge_pay_backend.Common.Table.{All, select, update}
use bridge_pay_backend.Common.Text.{codes, str_eq, upper}
use bridge_pay_backend.Errors.{ok, insufficient_funds, http_error}
use bridge_pay_backend.Examples.World.{
  world, world-RoundsToNearest, bank, bank-IsSound, alice, bob, alice_account, bob_account,
  pending_deposit,
}
use bridge_pay_backend.Outside.{Outside}
use bridge_pay_backend.Providers.{failed}
use bridge_pay_backend.Schema.{TransactionType, ReferenceNote, Provider, quoted, of_cents}
use bridge_pay_backend.Session.{pure, ◌>>=◌, scalar_one, scalar_one_or_none}
use bridge_pay_backend.Accounts.{has_id, entry, scale, is_short, get_by_user_id, get_by_id_locked}
use bridge_pay_backend.Accounts.Balance.{IsSound}
use bridge_pay_backend.Core.Rates.{convert, get_exchange_rate, rate_one, find_rate, live_rate}
use bridge_pay_backend.Core.Rates.Cache.{get_exchange_rate_within_ttl, convert_same_currency}
use bridge_pay_backend.Deposits.{completed}
use bridge_pay_backend.Deposits.Credit.{credit_account_and_record}
use bridge_pay_backend.Deposits.Effect.{credit_account_and_record_credits}
use bridge_pay_backend.Payouts.Mobile.{create_mpesa_payout, find_existing}
use bridge_pay_backend.Payouts.Refund.{create_mpesa_payout_refunded}
use bridge_pay_backend.Core.Phone.Digits.{is_digit, in_ranges}
use bridge_pay_backend.Core.Phone.{normalize_mpesa, starts_with, expand, digits_of}
use bridge_pay_backend.Providers.{read_mpesa, checked_phone}
use bridge_pay_backend.System.{Request, run, empty_db}
use bridge_pay_backend.System.Sound.{run-IsSound, run-not_overdrawn}
use bridge_pay_backend.Transfers.{
  execute_transfer, transfer_between, lock_accounts_in_order, lock_all, sorted, insert, get_locked,
}
use bridge_pay_backend.Transfers.Effect.{Ready, execute_transfer_moves}
use bridge_pay_backend.Transfers.Soundness.{execute_transfer_atomic}
use bridge_pay_backend.Users

-- A transfer, a payout that M-Pesa refuses, and a deposit that comes in.
abbrev day : List (Outside × Request)
day =
    (world, Request.transfer (some 0) (codes "b") 300 none)
    ∷ (
      world,
      Request.mpesa_payout (some 0) (failed (http_error (codes "x"))) (codes "0712345678")
          (codes "b") 200 none,
    )
    ∷ (world, Request.stripe_event (codes "in") (some (codes "s")))
    ∷ []

run-IsSound_example : IsSound (run day bank)
run-IsSound_example =
    run-IsSound day bank
      (world-RoundsToNearest, (world-RoundsToNearest, (world-RoundsToNearest, tt))) bank-IsSound

abbrev sign_ups : List (Outside × Request)
sign_ups =
    (world, Request.registration (codes "1") (codes "a") (codes "pw") (codes "Alice") (codes "KE"))
    ∷ (world, Request.registration (codes "2") (codes "b") (codes "pw") (codes "Bob") (codes "KE"))
    ∷ []

run-not_overdrawn_example : All (λ a. pos 0 ≤ℤ a.balance) (run sign_ups empty_db).accounts
run-not_overdrawn_example =
    run-not_overdrawn sign_ups (world-RoundsToNearest, (world-RoundsToNearest, tt))

ready : Ready alice (codes "b") 300 bob alice_account bob_account bank
unfolding select str_eq is_short scale of_cents
ready = record {
  other_email = refl;
  recipient = refl;
  sender_account = refl;
  recipient_account = refl;
  other_account = λ e. omega arith;
  sender_row = refl;
  recipient_row = refl;
  covered = refl;
}

execute_transfer_moves_example :
    let t =
      entry 10
        (some 2)
        (some 3)
        300
        (codes "KES")
        TransactionType.transfer
        (ReferenceNote.note none) in
    let (r, s') = execute_transfer world alice (codes "b") 300 none bank in
    (r ≡ ok t)
    × (select (has_id 2) s'.accounts ≡ record alice_account { balance = pos 1000 -ℤ pos 300 } ∷ [])
    × (select (has_id 3) s'.accounts ≡ record bob_account { balance = pos 0 +ℤ pos 300 } ∷ [])
    × ((k : ℕ) → k ≢ 2 → k ≢ 3 → select (has_id k) s'.accounts ≡ select (has_id k) bank.accounts)
    × (s'.transactions ≡ t ∷ bank.transactions)
execute_transfer_moves_example =
    execute_transfer_moves world world-RoundsToNearest alice (codes "b") 300 none bob alice_account
      bob_account bank ready

execute_transfer_atomic_example : (execute_transfer world alice (codes "b") 2000 none bank).1 ≡ bank
unfolding execute_transfer transfer_between lock_accounts_in_order lock_all sorted insert get_locked
    get_by_id_locked get_by_user_id Users.get_by_email Users.find_one scalar_one scalar_one_or_none
    is_short scale of_cents str_eq select ◌>>=◌
execute_transfer_atomic_example =
    execute_transfer_atomic world alice (codes "b") 2000 none bank insufficient_funds refl

create_mpesa_payout_refunded_example :
    select
      (has_id 2)
      (create_mpesa_payout world
        (failed (http_error (codes "x")))
        alice
        2
        (codes "0712345678")
        (codes "b")
        200
        none
        bank).1.accounts
    ≡ alice_account ∷ []
unfolding find_existing pure checked_phone normalize_mpesa starts_with expand digits_of is_digit
    in_ranges read_mpesa select is_short scale of_cents
create_mpesa_payout_refunded_example =
    create_mpesa_payout_refunded world world-RoundsToNearest alice_account 200
      (failed (http_error (codes "x"))) alice 2 (codes "0712345678") (codes "254712345678")
      (codes "b") none (http_error (codes "x")) bank refl refl refl (inr (inr (codes "x", refl)))
      refl refl refl

credit_account_and_record_credits_example :
    let (r, s') = credit_account_and_record world pending_deposit bank in
    (r ≡ ok tt)
    × (select (has_id 2) s'.accounts ≡ record alice_account { balance = pos 1000 +ℤ pos 70 } ∷ [])
    × (s'.transactions
        ≡ entry 10 none
            (some 2)
            70
            (codes "KES")
            TransactionType.deposit
            (ReferenceNote.provider_deposit Provider.mpesa)
          ∷ bank.transactions)
    × (s'.deposits ≡ update (λ e. e.id == 5) (completed 1000) bank.deposits)
unfolding upper select
credit_account_and_record_credits_example =
    credit_account_and_record_credits world world-RoundsToNearest pending_deposit alice_account
      alice bank refl refl refl

get_exchange_rate_within_ttl_example :
    let (first, s') = get_exchange_rate 1000 world.feed (codes "usd") (codes "kes") bank in
    (first ≡ ok 2)
    × (get_exchange_rate 2000 (λ f t. quoted 5) (codes "usd") (codes "kes") s' ≡ (ok 2, s'))
unfolding upper str_eq live_rate find_rate
get_exchange_rate_within_ttl_example =
    get_exchange_rate_within_ttl 1000 2000 world.feed (λ f t. quoted 5) (codes "usd") (codes "kes")
      2 bank refl refl refl (omega arith)

convert_same_currency_example :
    convert 1000 world.feed 70 (codes "kes") (codes "KES") bank ≡ (ok (of_cents 70, rate_one), bank)
unfolding upper
convert_same_currency_example =
    convert_same_currency 1000 world.feed 70 (codes "kes") (codes "KES") bank refl

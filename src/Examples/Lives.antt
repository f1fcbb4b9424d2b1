-- ===== src/Examples/Lives.antt =====
-- Runs of payouts, deposits and payment methods through their lives.
use bridge_pay_backend.Common.{◌≡◌, ◌⊎◌, refl, arith, true, [], ◌∷◌, ◌==◌, none, some}
use bridge_pay_backend.Common.Int.{pos}
use bridge_pay_backend.Common.Table.{update, select}
use bridge_pay_backend.Common.Text.{codes, upper, str_eq}
use bridge_pay_backend.Core.Rates.{live_rate, find_rate}
use bridge_pay_backend.Deposits.{failed}
use bridge_pay_backend.Deposits.Credit.{credit_account_and_record}
use bridge_pay_backend.Deposits.Settled.{
  IsSettled, uncaught, reason_text, credit_account_and_record_without_rate,
  credit_account_and_record_settles,
}
use bridge_pay_backend.Errors.{Error, ok, err}
use bridge_pay_backend.Examples.World.{world, bank, alice, alice_account, pending_deposit}
use bridge_pay_backend.Json.{Json, str, num, obj, field, end}
use bridge_pay_backend.Outside.{Outside}
use bridge_pay_backend.PaymentMethods.Default.{OneDefault, methods-OneDefault}
use bridge_pay_backend.PaymentMethods.Router.{
  confirm_stripe_card_link, link_mpesa, unlink_payment_method,
}
use bridge_pay_backend.Payouts.Lifecycle.{Follows, IsKeyed}
use bridge_pay_backend.Schema.{Deposit, quoted, refused}
use bridge_pay_backend.System.{Request, run}
use bridge_pay_backend.System.Life.{run-Follows}

-- M-Pesa reports that the payout of the reference "out" has failed.
abbrev failure : Json
failure = obj (
    field (codes "Result")
      (obj (
        field (codes "ConversationID") (str (codes "out"))
          (field (codes "ResultCode") (num (pos 1)) end)))
      end)

run-Follows_example :
    Follows bank.payouts (run ((world, Request.b2c_result failure) ∷ []) bank).payouts
    × IsKeyed
        (run ((world, Request.b2c_result failure) ∷ []) bank).payouts
        (run ((world, Request.b2c_result failure) ∷ []) bank).next_id
run-Follows_example =
    run-Follows ((world, Request.b2c_result failure) ∷ []) bank ((omega arith, tt), (tt, tt))

-- A world without rates, and a deposit that needs one.
abbrev no_rates : Outside
no_rates = record world { feed = λ f t. refused (codes "down") }

abbrev in_dollars : Deposit
in_dollars = record pending_deposit { currency = codes "usd" }

credit_account_and_record_without_rate_example :
    let (r, s') = credit_account_and_record no_rates in_dollars bank in
    (r ≡ ok tt)
    × (s'.accounts ≡ bank.accounts)
    × (s'.transactions ≡ bank.transactions)
    × (s'.deposits
        ≡ update
            (λ x. x.id == 5)
            (failed (some (reason_text (codes "USD") (codes "KES") (codes "down"))))
            bank.deposits)
unfolding upper select str_eq live_rate find_rate
credit_account_and_record_without_rate_example =
    credit_account_and_record_without_rate no_rates in_dollars alice_account alice bank
      (codes "down") refl refl refl refl refl refl

credit_account_and_record_settles_example :
    let (r, s') = credit_account_and_record world in_dollars bank in
    ((r ≡ ok tt) × IsSettled 5 s'.deposits)
    ⊎ ((e : Error) × (uncaught (quoted 2) ≡ some e) × (r ≡ err e) × (s' ≡ bank))
unfolding select
credit_account_and_record_settles_example =
    credit_account_and_record_settles world in_dollars alice_account alice bank refl refl
      (λ e h. cc)

methods-OneDefault_example :
    OneDefault
      (confirm_stripe_card_link
        (some 0)
        (ok (codes "cus"))
        (ok none)
        (ok tt)
        (codes "pm")
        true
        bank).1.payment_methods
    × OneDefault (link_mpesa (some 0) (codes "0712345678") true bank).1.payment_methods
    × OneDefault (unlink_payment_method (some 0) (ok tt) (some 3) bank).1.payment_methods
unfolding select
methods-OneDefault_example =
    methods-OneDefault (some 0) (some 3) (ok (codes "cus")) (ok none) (ok tt) (ok tt) (codes "pm")
      (codes "0712345678") true bank (λ id. omega arith)

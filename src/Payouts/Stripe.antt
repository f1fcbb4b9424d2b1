-- ===== src/Payouts/Stripe.antt =====
-- app/modules/payouts/service.py: payouts through Stripe, to a card or to a bank account.
use bridge_pay_backend.Common.{ℕ, not, Option, if◌then◌else◌}
use bridge_pay_backend.Common.Text.{Str, codes, str_eq, upper, contains}
use bridge_pay_backend.Core.Countries.{valid_country_codes}
use bridge_pay_backend.Errors.{Error, Result, invalid_country, stripe_error, stripe_payout_failed}
use bridge_pay_backend.Json.{str}
use bridge_pay_backend.Outside.{Outside}
use bridge_pay_backend.Schema.{User, Payout, Provider}
use bridge_pay_backend.Session.{
  Action, pure, raise, lift, raise_if, option_case, catch, ◌>>=◌, ◌>>◌,
}
use bridge_pay_backend.Payouts.{set_external_reference}
use bridge_pay_backend.Payouts.Mobile.{find_existing, open_payout}
use bridge_pay_backend.Payouts.Wallet.{reverse_deduction, complete}

-- What `stripe.Payout.create` returns, as far as the code looks at it.
pub record PayoutResult : Type 0 where
  pub id : Str
  pub status : Str

module _ (o : Outside) where
  -- `except stripe.error.StripeError as e`
  unfoldable pub reverse_stripe : Payout → Error → Action Payout
  reverse_stripe payout (stripe_error e) =
      reverse_deduction o payout (str e) >> raise (stripe_payout_failed e)
  reverse_stripe payout e = raise e

  -- The call of Stripe, and what its answer makes of the payout. `failed_reason` is the only text in
  -- which the two functions differ.
  unfoldable pub send_stripe : Result PayoutResult → Str → Payout → Action Payout
  send_stripe reply failed_reason payout =
      catch
        (do
          payout_result ← lift reply
          payout ← set_external_reference payout payout_result.id
          if str_eq payout_result.status (codes "failed")
              then reverse_deduction o payout (str failed_reason)
              else complete o payout payout.transaction_id)
        (reverse_stripe payout)

  unfoldable pub create_stripe_card_payout :
      Result PayoutResult → User → ℕ → Str → Str → ℕ → Str → Option Str → Action Payout
  create_stripe_card_payout reply user account_id card_token recipient_email amount currency
        idempotency_key =
      do
        existing ← find_existing user.id idempotency_key
        option_case existing
            (do
              payout ←
                  open_payout o user account_id Provider.stripe card_token recipient_email amount
                    (upper currency) idempotency_key
              send_stripe reply (codes "Stripe payout failed immediately") payout)
            pure

  unfoldable pub create_bank_account_payout :
      Result PayoutResult → User → ℕ → Str → Str → Str → ℕ → Str → Option Str → Action Payout
  create_bank_account_payout reply user account_id bank_account_token country recipient_email amount
        currency idempotency_key =
      do
        raise_if (not (contains (upper country) valid_country_codes)) invalid_country
        existing ← find_existing user.id idempotency_key
        option_case existing
            (do
              payout ←
                  open_payout o user account_id Provider.stripe bank_account_token recipient_email
                    amount (upper currency) idempotency_key
              send_stripe reply (codes "Stripe bank payout failed immediately") payout)
            pure

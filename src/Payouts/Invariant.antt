-- ===== src/Payouts/Invariant.antt =====
-- Proofs about app/modules/payouts: the ledger under its operations.
use bridge_pay_backend.Common.{ℕ, Bool, Option, none, some}
use bridge_pay_backend.Common.Text.{Str}
use bridge_pay_backend.Errors.{Result}
use bridge_pay_backend.Json.{Json}
use bridge_pay_backend.Outside.{Outside, RoundsToNearest}
use bridge_pay_backend.Providers.{Reply}
use bridge_pay_backend.Schema.{User, Payout, Provider}
use bridge_pay_backend.Session.{Action}
use bridge_pay_backend.Session.Keeps.{Keeps}
use bridge_pay_backend.Accounts.Balance.{IsSound}
use bridge_pay_backend.Payouts.{get_by_external_reference, get_by_idempotency_key_for_user}
use bridge_pay_backend.Payouts.Callbacks.{
  with_payout, settle_payout, handle_mpesa_b2c_result, handle_airtel_disbursement_callback,
  handle_stripe_payout_failed_event,
}
use bridge_pay_backend.Payouts.Mobile.{
  find_existing, open_payout, send_mpesa, create_mpesa_payout, send_airtel, create_airtel_payout,
}
use bridge_pay_backend.Payouts.Router.{
  get_own_account_id, as_owner, payout_via_mpesa, payout_via_airtel, payout_via_stripe_card,
  payout_via_bank_account,
}
use bridge_pay_backend.Payouts.Soundness.{payout_rules}
use bridge_pay_backend.Payouts.Stripe.{
  PayoutResult, send_stripe, create_stripe_card_payout, create_bank_account_payout,
}

Keeps-find_existing : (user_id : ℕ) (key : Option Str) → Keeps IsSound (find_existing user_id key)
unfolding find_existing get_by_idempotency_key_for_user
Keeps-find_existing user_id none = search payout_rules
Keeps-find_existing user_id (some key) = search payout_rules

Keeps-with_payout :
    (reference : Json) (test : Payout → Bool) (act : Payout → Action (Unit {0}))
    → ((p : Payout) → Keeps IsSound (act p))
    → Keeps IsSound (with_payout reference test act)
unfolding with_payout get_by_external_reference
Keeps-with_payout reference test act k = search payout_rules depth 12

Keeps-get_own_account_id : (user : User) → Keeps IsSound (get_own_account_id user)
unfolding get_own_account_id
Keeps-get_own_account_id user = search payout_rules

module _ (o : Outside) (nearest : RoundsToNearest o) where
  Keeps-open_payout :
      (user : User) (account_id : ℕ) (provider : Provider) (to email : Str) (amount : ℕ)
      (currency : Str) (key : Option Str)
      → Keeps IsSound (open_payout o user account_id provider to email amount currency key)
  unfolding open_payout
  Keeps-open_payout user account_id provider to email amount currency key =
      search payout_rules depth 12

  Keeps-send_mpesa : (reply : Reply) (p : Payout) → Keeps IsSound (send_mpesa o reply p)
  unfolding send_mpesa
  Keeps-send_mpesa reply p = search payout_rules depth 12

  Keeps-send_airtel : (reply : Reply) (p : Payout) → Keeps IsSound (send_airtel o reply p)
  unfolding send_airtel
  Keeps-send_airtel reply p = search payout_rules depth 12

  Keeps-send_stripe :
      (reply : Result PayoutResult) (reason : Str) (p : Payout)
      → Keeps IsSound (send_stripe o reply reason p)
  unfolding send_stripe
  Keeps-send_stripe reply reason p = search payout_rules depth 12

  Keeps-as_owner :
      (subject : Option ℕ) (act : User → ℕ → Action Payout)
      → ((user : User) (id : ℕ) → Keeps IsSound (act user id))
      → Keeps IsSound (as_owner o subject act)
  unfolding as_owner
  Keeps-as_owner subject act k = search (payout_rules, Keeps-get_own_account_id) depth 12

  -- A payout to M-Pesa keeps the ledger sound.
  pub payout_via_mpesa-IsSound :
      (subject : Option ℕ) (reply : Reply) (phone email : Str) (amount : ℕ) (key : Option Str)
      → Keeps IsSound (payout_via_mpesa o subject reply phone email amount key)
  unfolding payout_via_mpesa create_mpesa_payout
  payout_via_mpesa-IsSound subject reply phone email amount key =
      Keeps-as_owner subject _ (λ user id.
        search (payout_rules, Keeps-find_existing, Keeps-open_payout, Keeps-send_mpesa) depth 12)

  pub payout_via_airtel-IsSound :
      (subject : Option ℕ) (reply : Reply) (phone email : Str) (amount : ℕ) (key : Option Str)
      → Keeps IsSound (payout_via_airtel o subject reply phone email amount key)
  unfolding payout_via_airtel create_airtel_payout
  payout_via_airtel-IsSound subject reply phone email amount key =
      Keeps-as_owner subject _ (λ user id.
        search (payout_rules, Keeps-find_existing, Keeps-open_payout, Keeps-send_airtel) depth 12)

  pub payout_via_stripe_card-IsSound :
      (subject : Option ℕ) (reply : Result PayoutResult) (card email : Str) (amount : ℕ)
      (currency : Str) (key : Option Str)
      → Keeps IsSound (payout_via_stripe_card o subject reply card email amount currency key)
  unfolding payout_via_stripe_card create_stripe_card_payout
  payout_via_stripe_card-IsSound subject reply card email amount currency key =
      Keeps-as_owner subject _ (λ user id.
        search (payout_rules, Keeps-find_existing, Keeps-open_payout, Keeps-send_stripe) depth 12)

  pub payout_via_bank_account-IsSound :
      (subject : Option ℕ) (reply : Result PayoutResult) (token country email : Str) (amount : ℕ)
      (currency : Str) (key : Option Str)
      → Keeps IsSound
          (payout_via_bank_account o subject reply token country email amount currency key)
  unfolding payout_via_bank_account create_bank_account_payout
  payout_via_bank_account-IsSound subject reply token country email amount currency key =
      Keeps-as_owner subject _ (λ user id.
        search (payout_rules, Keeps-find_existing, Keeps-open_payout, Keeps-send_stripe) depth 12)

  Keeps-settle_payout :
      (success : Bool) (reason : Json) (p : Payout)
      → Keeps IsSound (settle_payout o success reason p)
  unfolding settle_payout
  Keeps-settle_payout success reason p = search payout_rules depth 10

  pub handle_mpesa_b2c_result-IsSound :
      (payload : Json) → Keeps IsSound (handle_mpesa_b2c_result o payload)
  unfolding handle_mpesa_b2c_result
  handle_mpesa_b2c_result-IsSound payload =
      search (payout_rules, Keeps-with_payout, Keeps-settle_payout) depth 12

  pub handle_airtel_disbursement_callback-IsSound :
      (payload : Json) → Keeps IsSound (handle_airtel_disbursement_callback o payload)
  unfolding handle_airtel_disbursement_callback
  handle_airtel_disbursement_callback-IsSound payload =
      search (payout_rules, Keeps-with_payout, Keeps-settle_payout) depth 12

  pub handle_stripe_payout_failed_event-IsSound :
      (event : Json) → Keeps IsSound (handle_stripe_payout_failed_event o event)
  unfolding handle_stripe_payout_failed_event
  handle_stripe_payout_failed_event-IsSound event =
      search (payout_rules, Keeps-with_payout) depth 12

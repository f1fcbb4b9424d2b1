-- ===== src/System/Sound.antt =====
-- Proofs about all of the routes of app/main.py: the ledger over a run.
use bridge_pay_backend.Common.{List, [], ◌∷◌}
use bridge_pay_backend.Common.Int.{pos, ◌≤ℤ◌}
use bridge_pay_backend.Common.Table.{All, All-mono}
use bridge_pay_backend.Outside.{Outside, RoundsToNearest}
use bridge_pay_backend.Schema.{Account, Db}
use bridge_pay_backend.Session.{pure}
use bridge_pay_backend.Session.Keeps.{Keeps-pure}
use bridge_pay_backend.Accounts.Balance.{IsSound}
use bridge_pay_backend.Deposits.Soundness.{
  deposit_via_stripe-IsSound, deposit_via_mpesa-IsSound, deposit_via_airtel-IsSound,
}
use bridge_pay_backend.Payouts.Invariant.{
  payout_via_mpesa-IsSound, payout_via_airtel-IsSound, payout_via_stripe_card-IsSound,
  payout_via_bank_account-IsSound,
}
use bridge_pay_backend.System.{Request, serve, run, empty_db}
use bridge_pay_backend.System.People.{
  register-IsSound, verify_email-IsSound, resend_verification-IsSound, login-IsSound,
  refresh-IsSound, logout-IsSound, password_reset_request-IsSound, password_reset_confirm-IsSound,
  google_exchange-IsSound,
}
use bridge_pay_backend.Webhooks.{mpesa_b2c_timeout}
use bridge_pay_backend.System.Routes.{
  create_transfer-IsSound, google_callback-IsSound, update_current_user-IsSound,
  change_current_user_password-IsSound, mark_own_read-IsSound, mark_all_own_read-IsSound,
  start_stripe_card_link-IsSound, confirm_stripe_card_link-IsSound, link_mpesa-IsSound,
  unlink_payment_method-IsSound, stripe_webhook-IsSound, airtel_collection_callback-IsSound,
  airtel_disbursement_callback-IsSound, mpesa_stk_callback-IsSound, mpesa_b2c_result-IsSound,
}

module _ (o : Outside) (nearest : RoundsToNearest o) where
  -- One request.
  serve-IsSound : (r : Request) (s : Db) → IsSound s → IsSound (serve o r s)
  unfolding serve mpesa_b2c_timeout pure
  serve-IsSound (Request.transfer who email amount why) =
      (create_transfer-IsSound o nearest who email amount why).at
  serve-IsSound (Request.mpesa_payout who reply phone email amount key) =
      (payout_via_mpesa-IsSound o nearest who reply phone email amount key).at
  serve-IsSound (Request.airtel_payout who reply phone email amount key) =
      (payout_via_airtel-IsSound o nearest who reply phone email amount key).at
  serve-IsSound (Request.card_payout who reply card email amount currency key) =
      (payout_via_stripe_card-IsSound o nearest who reply card email amount currency key).at
  serve-IsSound (Request.bank_payout who reply token country email amount currency key) =
      (payout_via_bank_account-IsSound o nearest who reply token country email amount currency
        key).at
  serve-IsSound (Request.stripe_deposit who stripe amount currency key) =
      (deposit_via_stripe-IsSound who amount key stripe currency).at
  serve-IsSound (Request.mpesa_deposit who reply phone amount key) =
      (deposit_via_mpesa-IsSound who amount key o reply phone).at
  serve-IsSound (Request.airtel_deposit who reply phone amount key) =
      (deposit_via_airtel-IsSound who amount key o reply phone).at
  serve-IsSound (Request.stripe_event payload signature) =
      (stripe_webhook-IsSound o nearest payload signature).at
  serve-IsSound (Request.airtel_collection body signature) =
      (airtel_collection_callback-IsSound o nearest body signature).at
  serve-IsSound (Request.airtel_disbursement body signature) =
      (airtel_disbursement_callback-IsSound o nearest body signature).at
  serve-IsSound (Request.stk_callback payload) = (mpesa_stk_callback-IsSound o nearest payload).at
  serve-IsSound (Request.b2c_result payload) = (mpesa_b2c_result-IsSound o nearest payload).at
  serve-IsSound (Request.b2c_timeout payload) = (Keeps-pure tt).at
  serve-IsSound (Request.registration token email password name country) =
      (register-IsSound o token email password name country).at
  serve-IsSound (Request.verification token) = (verify_email-IsSound o token).at
  serve-IsSound (Request.new_verification who token) = (resend_verification-IsSound o who token).at
  serve-IsSound (Request.log_in token username password) =
      (login-IsSound o token username password).at
  serve-IsSound (Request.token_refresh token new_token) = (refresh-IsSound o token new_token).at
  serve-IsSound (Request.log_out token) = (logout-IsSound o token).at
  serve-IsSound (Request.reset_request token email) =
      (password_reset_request-IsSound o token email).at
  serve-IsSound (Request.reset_confirmation token password) =
      (password_reset_confirm-IsSound o token password).at
  serve-IsSound (Request.google_code token code) = (google_exchange-IsSound o token code).at
  serve-IsSound (Request.google_sign_in raw error code state cookie info) =
      (google_callback-IsSound o raw error code state cookie info).at
  serve-IsSound (Request.profile_update who token name email country) =
      (update_current_user-IsSound o who token name email country).at
  serve-IsSound (Request.password_change who current new) =
      (change_current_user_password-IsSound o who current new).at
  serve-IsSound (Request.notification_read who id) = (mark_own_read-IsSound who id).at
  serve-IsSound (Request.notifications_read who) = (mark_all_own_read-IsSound who).at
  serve-IsSound (Request.card_setup who customer secret) =
      (start_stripe_card_link-IsSound who customer secret).at
  serve-IsSound (Request.card_link who customer owner attached id default) =
      (confirm_stripe_card_link-IsSound who customer owner attached id default).at
  serve-IsSound (Request.mpesa_link who phone default) = (link_mpesa-IsSound who phone default).at
  serve-IsSound (Request.unlink who detached id) =
      (unlink_payment_method-IsSound who detached id).at

-- Whatever requests are served, in whatever order, and whatever the providers, the clock and the feed of exchange
-- rates answer, where a rate is not negative, a sound ledger stays sound, as long as the database rounds to a
-- nearest cent: no account is overdrawn, each balance is the sum of the account's transactions up to a cent for each
-- deposit or withdrawal, and the ends of every transaction, where they are given, are accounts of the table.
pub run-IsSound :
    (trace : List (Outside × Request)) (s : Db)
    → All (λ step. RoundsToNearest step.0) trace
    → IsSound s
    → IsSound (run trace s)
unfolding run
run-IsSound [] s nearest h = h
run-IsSound ((o, r) ∷ rest) s nearest h =
    run-IsSound rest (serve o r s) nearest.1 (serve-IsSound o nearest.0 r s h)

empty_db-IsSound : IsSound empty_db
empty_db-IsSound = record { rows = tt; ends = tt; named = tt }

-- In every database that the backend reaches from an empty one, where the database rounds to a nearest cent, no
-- account is overdrawn.
pub run-not_overdrawn :
    (trace : List (Outside × Request))
    → All (λ step. RoundsToNearest step.0) trace
    → All (λ a. pos 0 ≤ℤ a.balance) (run trace empty_db).accounts
run-not_overdrawn trace nearest =
    All-mono _ _ (λ (a : Account) h. h.covered) _
      (run-IsSound trace empty_db nearest empty_db-IsSound).rows

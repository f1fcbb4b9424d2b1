-- ===== src/System/Life.antt =====
-- Proofs about all of the routes of app/main.py: the life of payouts over a run.
pub mod Rules
pub mod People
pub mod Money
pub mod Payouts
use bridge_pay_backend.Common.{ℕ, List, [], ◌∷◌}
use bridge_pay_backend.Outside.{Outside}
use bridge_pay_backend.Payouts.Lifecycle.{Follows, IsKeyed}
use bridge_pay_backend.Payouts.Lifecycle.Rows.{Follows-refl}
use bridge_pay_backend.Payouts.Lifecycle.Steps.{Of, IsLater, IsLater-next}
use bridge_pay_backend.Schema.{Payout, Db}
use bridge_pay_backend.Session.{pure}
use bridge_pay_backend.Session.Keeps.{Keeps-pure}
use bridge_pay_backend.System.{Request, serve, run, empty_db}
use bridge_pay_backend.System.Life.Money.{
  create_transfer-Keeps, deposit_via_stripe-Keeps, deposit_via_mpesa-Keeps,
  deposit_via_airtel-Keeps,
}
use bridge_pay_backend.System.Life.Payouts.{
  payout_via_mpesa-Keeps, payout_via_airtel-Keeps, payout_via_stripe_card-Keeps,
  payout_via_bank_account-Keeps, stripe_webhook-Keeps, airtel_collection_callback-Keeps,
  airtel_disbursement_callback-Keeps, mpesa_stk_callback-Keeps, mpesa_b2c_result-Keeps,
}
use bridge_pay_backend.System.Life.People.{
  register-Keeps, verify_email-Keeps, resend_verification-Keeps, login-Keeps, refresh-Keeps,
  logout-Keeps, password_reset_request-Keeps, password_reset_confirm-Keeps, google_exchange-Keeps,
  google_callback-Keeps, update_current_user-Keeps, change_current_user_password-Keeps,
  mark_own_read-Keeps, mark_all_own_read-Keeps, start_stripe_card_link-Keeps,
  confirm_stripe_card_link-Keeps, link_mpesa-Keeps, unlink_payment_method-Keeps,
}
use bridge_pay_backend.Webhooks.{mpesa_b2c_timeout}

module _ (start : List Payout) (o : Outside) where
  -- One request.
  serve-Keeps : (r : Request) (s : Db) → Of (IsLater start) s → Of (IsLater start) (serve o r s)
  unfolding serve mpesa_b2c_timeout pure
  serve-Keeps (Request.transfer who email amount why) =
      (create_transfer-Keeps (IsLater start) (IsLater-next start) o who email amount why).at
  serve-Keeps (Request.mpesa_payout who reply phone email amount key) =
      (payout_via_mpesa-Keeps start o who phone email amount key reply).at
  serve-Keeps (Request.airtel_payout who reply phone email amount key) =
      (payout_via_airtel-Keeps start o who phone email amount key reply).at
  serve-Keeps (Request.card_payout who reply card email amount currency key) =
      (payout_via_stripe_card-Keeps start o who card email amount key reply currency).at
  serve-Keeps (Request.bank_payout who reply token country email amount currency key) =
      (payout_via_bank_account-Keeps start o who token email amount key reply country currency).at
  serve-Keeps (Request.stripe_deposit who stripe amount currency key) =
      (deposit_via_stripe-Keeps (IsLater start) (IsLater-next start) who amount key stripe
        currency).at
  serve-Keeps (Request.mpesa_deposit who reply phone amount key) =
      (deposit_via_mpesa-Keeps (IsLater start) (IsLater-next start) who amount key o reply phone).at
  serve-Keeps (Request.airtel_deposit who reply phone amount key) =
      (deposit_via_airtel-Keeps (IsLater start) (IsLater-next start) who amount key o reply
        phone).at
  serve-Keeps (Request.stripe_event payload signature) =
      (stripe_webhook-Keeps start o payload signature).at
  serve-Keeps (Request.airtel_collection body signature) =
      (airtel_collection_callback-Keeps start o body signature).at
  serve-Keeps (Request.airtel_disbursement body signature) =
      (airtel_disbursement_callback-Keeps start o body signature).at
  serve-Keeps (Request.stk_callback payload) = (mpesa_stk_callback-Keeps start o payload).at
  serve-Keeps (Request.b2c_result payload) = (mpesa_b2c_result-Keeps start o payload).at
  serve-Keeps (Request.b2c_timeout payload) = (Keeps-pure tt).at
  serve-Keeps (Request.registration token email password name country) =
      (register-Keeps (IsLater start) (IsLater-next start) o token email password name country).at
  serve-Keeps (Request.verification token) =
      (verify_email-Keeps (IsLater start) (IsLater-next start) o token).at
  serve-Keeps (Request.new_verification who token) =
      (resend_verification-Keeps (IsLater start) (IsLater-next start) o who token).at
  serve-Keeps (Request.log_in token username password) =
      (login-Keeps (IsLater start) (IsLater-next start) o token username password).at
  serve-Keeps (Request.token_refresh token new_token) =
      (refresh-Keeps (IsLater start) (IsLater-next start) o token new_token).at
  serve-Keeps (Request.log_out token) =
      (logout-Keeps (IsLater start) (IsLater-next start) o token).at
  serve-Keeps (Request.reset_request token email) =
      (password_reset_request-Keeps (IsLater start) (IsLater-next start) o token email).at
  serve-Keeps (Request.reset_confirmation token password) =
      (password_reset_confirm-Keeps (IsLater start) (IsLater-next start) o token password).at
  serve-Keeps (Request.google_code token code) =
      (google_exchange-Keeps (IsLater start) (IsLater-next start) o token code).at
  serve-Keeps (Request.google_sign_in raw error code state cookie info) =
      (google_callback-Keeps (IsLater start) (IsLater-next start) o raw error code state cookie
        info).at
  serve-Keeps (Request.profile_update who token name email country) =
      (update_current_user-Keeps (IsLater start) (IsLater-next start) o who token name email
        country).at
  serve-Keeps (Request.password_change who current new) =
      (change_current_user_password-Keeps (IsLater start) (IsLater-next start) o who current new).at
  serve-Keeps (Request.notification_read who id) =
      (mark_own_read-Keeps (IsLater start) (IsLater-next start) who id).at
  serve-Keeps (Request.notifications_read who) =
      (mark_all_own_read-Keeps (IsLater start) (IsLater-next start) who).at
  serve-Keeps (Request.card_setup who customer secret) =
      (start_stripe_card_link-Keeps (IsLater start) (IsLater-next start) who customer secret).at
  serve-Keeps (Request.card_link who customer owner attached id default) =
      (confirm_stripe_card_link-Keeps (IsLater start) (IsLater-next start) who customer owner
        attached id default).at
  serve-Keeps (Request.mpesa_link who phone default) =
      (link_mpesa-Keeps (IsLater start) (IsLater-next start) who phone default).at
  serve-Keeps (Request.unlink who detached id) =
      (unlink_payment_method-Keeps (IsLater start) (IsLater-next start) who detached id).at

run-IsLater :
    (start : List Payout) (trace : List (Outside × Request)) (s : Db)
    → Of (IsLater start) s
    → Of (IsLater start) (run trace s)
unfolding run
run-IsLater start [] s h = h
run-IsLater start ((o, r) ∷ rest) s h =
    run-IsLater start rest (serve o r s) (serve-Keeps start o r s h)

-- Whatever requests are served, in whatever order and whatever the providers answer, no payout is lost or
-- rewritten where their ids are keys: every payout is still there, in its place, for the same user, account,
-- amount and rate, and its status is the one it had or a later one. A pending payout may be completed or
-- reversed, a completed one reversed, and a failed or a reversed one stays so. Ids are still keys then.
pub run-Follows :
    (trace : List (Outside × Request)) (s : Db)
    → IsKeyed s.payouts s.next_id
    → Follows s.payouts (run trace s).payouts × IsKeyed (run trace s).payouts (run trace s).next_id
run-Follows trace s keyed =
    let h = run-IsLater s.payouts trace s (keyed, Follows-refl s.payouts) in (h.1, h.0)

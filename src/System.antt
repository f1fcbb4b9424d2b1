-- ===== src/System.antt =====
-- The whole backend as a machine: the requests that app/main.py routes, one at a time, and the database
-- that each leaves behind.
pub mod People
pub mod Routes
pub mod Sound
pub mod Life
use bridge_pay_backend.Common.{ℕ, Bool, List, [], ◌∷◌, Option}
use bridge_pay_backend.Common.Text.{Str}
use bridge_pay_backend.Errors.{Result}
use bridge_pay_backend.Json.{Json}
use bridge_pay_backend.Outside.{Outside}
use bridge_pay_backend.Providers.{Reply}
use bridge_pay_backend.Schema.{Db}
use bridge_pay_backend.Auth.Google.{google_callback}
use bridge_pay_backend.Auth.Router.{
  register, verify_email, resend_verification, login, refresh, logout, password_reset_request,
  password_reset_confirm, google_exchange,
}
use bridge_pay_backend.Deposits.Intake.{StripeReplies}
use bridge_pay_backend.Deposits.Router.{deposit_via_stripe, deposit_via_mpesa, deposit_via_airtel}
use bridge_pay_backend.Notifications.{mark_own_read, mark_all_own_read}
use bridge_pay_backend.Payouts.Router.{
  payout_via_mpesa, payout_via_airtel, payout_via_stripe_card, payout_via_bank_account,
}
use bridge_pay_backend.Payouts.Stripe.{PayoutResult}
use bridge_pay_backend.PaymentMethods.Router.{
  start_stripe_card_link, confirm_stripe_card_link, link_mpesa, unlink_payment_method,
}
use bridge_pay_backend.Profile.{update_current_user, change_current_user_password}
use bridge_pay_backend.Transfers.Router.{create_transfer}
use bridge_pay_backend.Webhooks.{
  stripe_webhook, mpesa_stk_callback, mpesa_b2c_result, mpesa_b2c_timeout,
  airtel_collection_callback, airtel_disbursement_callback,
}

-- A request that may write, with what its route takes: the bearer's id first where the route wants one,
-- and what the code outside answers while it is served.
pub data Request : Type 0 where
  transfer : Option ℕ → Str → ℕ → Option Str → Request
  mpesa_payout airtel_payout : Option ℕ → Reply → Str → Str → ℕ → Option Str → Request
  card_payout : Option ℕ → Result PayoutResult → Str → Str → ℕ → Str → Option Str → Request
  bank_payout : Option ℕ → Result PayoutResult → Str → Str → Str → ℕ → Str → Option Str → Request
  stripe_deposit : Option ℕ → StripeReplies → ℕ → Str → Option Str → Request
  mpesa_deposit airtel_deposit : Option ℕ → Reply → Str → ℕ → Option Str → Request
  stripe_event airtel_collection airtel_disbursement : Str → Option Str → Request
  stk_callback b2c_result b2c_timeout : Json → Request
  registration : Str → Str → Str → Str → Str → Request
  verification : Str → Request
  new_verification : Option ℕ → Str → Request
  log_in : Str → Str → Str → Request
  token_refresh : Str → Str → Request
  log_out : Str → Request
  reset_request reset_confirmation google_code : Str → Str → Request
  google_sign_in : Str → Option Str → Option Str → Option Str → Option Str → Result Json → Request
  profile_update : Option ℕ → Str → Option Str → Option Str → Option Str → Request
  password_change : Option ℕ → Str → Str → Request
  notification_read : Option ℕ → Option ℕ → Request
  notifications_read : Option ℕ → Request
  card_setup : Option ℕ → Result Str → Result Str → Request
  card_link : Option ℕ → Result Str → Result (Option Str) → Result (Unit {0}) → Str → Bool → Request
  mpesa_link : Option ℕ → Str → Bool → Request
  unlink : Option ℕ → Result (Unit {0}) → Option ℕ → Request

-- The database behind a request.
unfoldable pub serve : Outside → Request → Db → Db
serve o (Request.transfer who email amount why) s = (create_transfer o who email amount why s).1
serve o (Request.mpesa_payout who reply phone email amount key) s =
    (payout_via_mpesa o who reply phone email amount key s).1
serve o (Request.airtel_payout who reply phone email amount key) s =
    (payout_via_airtel o who reply phone email amount key s).1
serve o (Request.card_payout who reply card email amount currency key) s =
    (payout_via_stripe_card o who reply card email amount currency key s).1
serve o (Request.bank_payout who reply token country email amount currency key) s =
    (payout_via_bank_account o who reply token country email amount currency key s).1
serve o (Request.stripe_deposit who stripe amount currency key) s =
    (deposit_via_stripe who stripe amount currency key s).1
serve o (Request.mpesa_deposit who reply phone amount key) s =
    (deposit_via_mpesa who o reply phone amount key s).1
serve o (Request.airtel_deposit who reply phone amount key) s =
    (deposit_via_airtel who o reply phone amount key s).1
serve o (Request.stripe_event payload signature) s = (stripe_webhook o payload signature s).1
serve o (Request.airtel_collection body signature) s =
    (airtel_collection_callback o body signature s).1
serve o (Request.airtel_disbursement body signature) s =
    (airtel_disbursement_callback o body signature s).1
serve o (Request.stk_callback payload) s = (mpesa_stk_callback o payload s).1
serve o (Request.b2c_result payload) s = (mpesa_b2c_result o payload s).1
serve o (Request.b2c_timeout payload) s = (mpesa_b2c_timeout payload s).1
serve o (Request.registration token email password name country) s =
    (register o token email password name country s).1
serve o (Request.verification token) s = (verify_email o token s).1
serve o (Request.new_verification who token) s = (resend_verification o who token s).1
serve o (Request.log_in token username password) s = (login o token username password s).1
serve o (Request.token_refresh token new_token) s = (refresh o token new_token s).1
serve o (Request.log_out token) s = (logout o token s).1
serve o (Request.reset_request token email) s = (password_reset_request o token email s).1
serve o (Request.reset_confirmation token password) s =
    (password_reset_confirm o token password s).1
serve o (Request.google_code token code) s = (google_exchange o token code s).1
serve o (Request.google_sign_in raw error code state cookie info) s =
    (google_callback o raw error code state cookie info s).1
serve o (Request.profile_update who token name email country) s =
    (update_current_user o token who name email country s).1
serve o (Request.password_change who current new) s =
    (change_current_user_password o who current new s).1
serve o (Request.notification_read who id) s = (mark_own_read who id s).1
serve o (Request.notifications_read who) s = (mark_all_own_read who s).1
serve o (Request.card_setup who customer secret) s =
    (start_stripe_card_link who customer secret s).1
serve o (Request.card_link who customer owner attached id default) s =
    (confirm_stripe_card_link who customer owner attached id default s).1
serve o (Request.mpesa_link who phone default) s = (link_mpesa who phone default s).1
serve o (Request.unlink who detached id) s = (unlink_payment_method who detached id s).1

-- The requests of a run, first to last, each with the world that it meets.
unfoldable pub run : List (Outside × Request) → Db → Db
run [] s = s
run ((o, r) ∷ rest) s = run rest (serve o r s)

abbrev pub empty_db : Db
empty_db = record {
  next_id = 0;
  users = [];
  accounts = [];
  transactions = [];
  deposits = [];
  payouts = [];
  notifications = [];
  audit_logs = [];
  payment_methods = [];
  refresh_tokens = [];
  verification_tokens = [];
  reset_tokens = [];
  handoff_codes = [];
  rate_cache = [];
}

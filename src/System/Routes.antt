-- ===== src/System/Routes.antt =====
-- Proofs about the routes of transfers, Google sign-in, profiles, payment methods and webhooks: the ledger.
use bridge_pay_backend.Common.{ℕ, Bool, Option, Bool-cases, inl, inr}
use bridge_pay_backend.Common.Text.{Str}
use bridge_pay_backend.Errors.{
  Error, Result, ok, err, insufficient_funds, self_transfer, recipient_not_found, account_not_found,
  incorrect_current_password, stripe_error,
}
use bridge_pay_backend.Json.{Json}
use bridge_pay_backend.Outside.{Outside, RoundsToNearest}
use bridge_pay_backend.Schema.{User, Db, PaymentMethodType, Provider}
use bridge_pay_backend.Session.Keeps.{Keeps, Keeps-raise, Keeps-pure}
use bridge_pay_backend.Accounts.Balance.{IsSound}
use bridge_pay_backend.Auth.Google.{
  Redirect, find_or_create_google_user, sign_in, or_failed, answer_callback, google_callback,
  is_foreign,
}
use bridge_pay_backend.Deposits.Soundness.{
  handle_mpesa_stk_callback-IsSound, handle_airtel_collection_callback-IsSound,
  handle_stripe_webhook_event-IsSound, Keeps-ensure_stripe_customer,
}
use bridge_pay_backend.Notifications.{
  get_by_id_for_user, mark_notification_read, mark_all_read, mark_own_read, mark_all_own_read,
}
use bridge_pay_backend.PaymentMethods as Methods
use bridge_pay_backend.PaymentMethods.{
  create, list_for_user, unset_default_for_user, delete, make_room, create_stripe_setup_intent,
  confirm_stripe_card, link_mpesa_number, forgive_stripe, delete_payment_method,
}
use bridge_pay_backend.PaymentMethods.Router.{
  as_user, start_stripe_card_link, confirm_stripe_card_link, link_mpesa, unlink_payment_method,
}
use bridge_pay_backend.Payouts.Invariant.{
  handle_mpesa_b2c_result-IsSound, handle_airtel_disbursement_callback-IsSound,
  handle_stripe_payout_failed_event-IsSound,
}
use bridge_pay_backend.Profile.{
  change, change_email, update_profile, update_current_user, change_password, log_wrong_password,
  change_current_user_password,
}
use bridge_pay_backend.System.People.{people_rules}
use bridge_pay_backend.Transfers.Router.{log_failure, tell_both, create_transfer}
use bridge_pay_backend.Transfers.Soundness.{execute_transfer-IsSound}
use bridge_pay_backend.Untouched.{sound_rules, Keeps-elsewhere}
use bridge_pay_backend.Users
use bridge_pay_backend.Webhooks.{
  verify_airtel_or_raise, verify_and_dispatch_stripe_event, dispatch_airtel_collection_callback,
  dispatch_airtel_disbursement_callback, stripe_webhook, mpesa_stk_callback, mpesa_b2c_result,
  airtel_collection_callback, airtel_disbursement_callback,
}

Keeps-log_failure : (user : User) (e : Error) → Keeps IsSound (log_failure user e)
unfolding log_failure
Keeps-log_failure user insufficient_funds = search sound_rules
Keeps-log_failure user self_transfer = search sound_rules
Keeps-log_failure user recipient_not_found = search sound_rules
Keeps-log_failure user account_not_found = search sound_rules
Keeps-log_failure user _ = Keeps-raise _

-- The transfer route keeps the ledger sound.
pub create_transfer-IsSound :
    (o : Outside)
    → RoundsToNearest o
    → (who : Option ℕ) (email : Str) (amount : ℕ) (why : Option Str)
    → Keeps IsSound (create_transfer o who email amount why)
unfolding create_transfer tell_both
create_transfer-IsSound o nearest who email amount why =
    search (sound_rules, Keeps-log_failure, execute_transfer-IsSound o nearest) depth 16

Keeps-find_or_create :
    (email name id : Str) → Keeps IsSound (find_or_create_google_user email name id)
unfolding find_or_create_google_user Users.get_by_google_id Users.find_one
Keeps-find_or_create email name id = search people_rules depth 20

module _ (o : Outside) (raw : Str) where
  Keeps-sign_in : (info : Result Json) → Keeps IsSound (sign_in o raw info)
  unfolding sign_in
  Keeps-sign_in info = search (people_rules, Keeps-find_or_create) depth 20

  or_failed-IsSound :
      (start : Db) (r : Result Redirect) (s : Db)
      → IsSound start
      → IsSound s
      → IsSound (or_failed o raw start r s).1
  unfolding or_failed
  or_failed-IsSound start (ok redirect) s h k = k
  or_failed-IsSound start (err e) s h k = h

  Keeps-answer_callback :
      (code state cookie : Option Str) (info : Result Json)
      → Keeps IsSound (answer_callback o raw code state cookie info)
  unfolding answer_callback
  Keeps-answer_callback code state cookie info = record {
    at = λ s h. elim (Bool-cases (is_foreign o raw code state cookie)) [
      | inl e ↦ rw e h
      | inr e ↦
          rw e (or_failed-IsSound s (sign_in o raw info s).0 _ h ((Keeps-sign_in info).at s h))
    ];
  }

  pub google_callback-IsSound :
      (error code state cookie : Option Str) (info : Result Json)
      → Keeps IsSound (google_callback o raw error code state cookie info)
  unfolding google_callback
  google_callback-IsSound error code state cookie info =
      search (people_rules, Keeps-answer_callback) depth 12

Keeps-profile_change : (f : User → User) (user : User) → Keeps IsSound (change f user)
unfolding change
Keeps-profile_change f user = search people_rules depth 12

Keeps-log_wrong_password :
    (o : Outside) (id : ℕ) (e : Error) → Keeps IsSound (log_wrong_password o id e)
unfolding log_wrong_password
Keeps-log_wrong_password o id incorrect_current_password = search people_rules
Keeps-log_wrong_password o id _ = Keeps-raise _

module _ (o : Outside) (subject : Option ℕ) where
  pub update_current_user-IsSound :
      (raw : Str) (name email country : Option Str)
      → Keeps IsSound (update_current_user o raw subject name email country)
  unfolding update_current_user update_profile change_email
  update_current_user-IsSound raw name email country =
      search (people_rules, Keeps-profile_change) depth 20

  pub change_current_user_password-IsSound :
      (current new : Str) → Keeps IsSound (change_current_user_password o subject current new)
  unfolding change_current_user_password change_password
  change_current_user_password-IsSound current new =
      search (people_rules, Keeps-profile_change, Keeps-log_wrong_password) depth 20

pub mark_own_read-IsSound : (subject id : Option ℕ) → Keeps IsSound (mark_own_read subject id)
unfolding mark_own_read mark_notification_read get_by_id_for_user
mark_own_read-IsSound subject id = search (people_rules, Keeps-elsewhere) depth 16

pub mark_all_own_read-IsSound : (subject : Option ℕ) → Keeps IsSound (mark_all_own_read subject)
unfolding mark_all_own_read mark_all_read
mark_all_own_read-IsSound subject = search (people_rules, Keeps-elsewhere) depth 16

Keeps-method :
    (user_id : ℕ) (p : Provider) (t : PaymentMethodType) (r : Str) (d : Bool)
    → Keeps IsSound (Methods.create user_id p t r d)
unfolding Methods.create
Keeps-method user_id p t r d = search (people_rules, Keeps-elsewhere) depth 12

Keeps-make_room : (b : Bool) (user_id : ℕ) → Keeps IsSound (make_room b user_id)
unfolding make_room unset_default_for_user
Keeps-make_room b user_id = search (people_rules, Keeps-elsewhere) depth 12

Keeps-forgive : (e : Error) → Keeps IsSound (forgive_stripe e)
unfolding forgive_stripe
Keeps-forgive (stripe_error e) = Keeps-pure tt
Keeps-forgive _ = Keeps-raise _

ruleset method_rules = (
  people_rules, Keeps-method, Keeps-make_room, Keeps-forgive, Keeps-ensure_stripe_customer,
  Keeps-elsewhere,
)

module _ (subject : Option ℕ) where
  pub start_stripe_card_link-IsSound :
      (customer secret : Result Str)
      → Keeps IsSound (start_stripe_card_link subject customer secret)
  unfolding start_stripe_card_link as_user create_stripe_setup_intent
  start_stripe_card_link-IsSound customer secret = search method_rules depth 16

  pub confirm_stripe_card_link-IsSound :
      (customer : Result Str) (owner : Result (Option Str)) (attached : Result (Unit {0}))
      (id : Str) (d : Bool)
      → Keeps IsSound (confirm_stripe_card_link subject customer owner attached id d)
  unfolding confirm_stripe_card_link as_user confirm_stripe_card
  confirm_stripe_card_link-IsSound customer owner attached id d = search method_rules depth 16

  pub link_mpesa-IsSound : (phone : Str) (d : Bool) → Keeps IsSound (link_mpesa subject phone d)
  unfolding link_mpesa as_user link_mpesa_number list_for_user
  link_mpesa-IsSound phone d = search method_rules depth 16

  pub unlink_payment_method-IsSound :
      (detached : Result (Unit {0})) (id : Option ℕ)
      → Keeps IsSound (unlink_payment_method subject detached id)
  unfolding unlink_payment_method as_user delete_payment_method delete Methods.get_by_id_for_user
  unlink_payment_method-IsSound detached id = search method_rules depth 16

module _ (o : Outside) (nearest : RoundsToNearest o) where
  pub stripe_webhook-IsSound :
      (payload : Str) (signature : Option Str) → Keeps IsSound (stripe_webhook o payload signature)
  unfolding stripe_webhook verify_and_dispatch_stripe_event
  stripe_webhook-IsSound payload signature =
      search
        (
          sound_rules, handle_stripe_payout_failed_event-IsSound,
          handle_stripe_webhook_event-IsSound,
        )
        depth 12

  pub airtel_collection_callback-IsSound :
      (body : Str) (signature : Option Str)
      → Keeps IsSound (airtel_collection_callback o body signature)
  unfolding airtel_collection_callback dispatch_airtel_collection_callback verify_airtel_or_raise
  airtel_collection_callback-IsSound body signature =
      search (sound_rules, handle_airtel_collection_callback-IsSound) depth 12

  pub airtel_disbursement_callback-IsSound :
      (body : Str) (signature : Option Str)
      → Keeps IsSound (airtel_disbursement_callback o body signature)
  unfolding airtel_disbursement_callback dispatch_airtel_disbursement_callback
      verify_airtel_or_raise
  airtel_disbursement_callback-IsSound body signature =
      search (sound_rules, handle_airtel_disbursement_callback-IsSound) depth 12

  pub mpesa_stk_callback-IsSound : (payload : Json) → Keeps IsSound (mpesa_stk_callback o payload)
  unfolding mpesa_stk_callback
  mpesa_stk_callback-IsSound payload = search (sound_rules, handle_mpesa_stk_callback-IsSound)

  pub mpesa_b2c_result-IsSound : (payload : Json) → Keeps IsSound (mpesa_b2c_result o payload)
  unfolding mpesa_b2c_result
  mpesa_b2c_result-IsSound payload = search (sound_rules, handle_mpesa_b2c_result-IsSound)

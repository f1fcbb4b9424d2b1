-- ===== src/System/Life/People.antt =====
-- Proofs about the routes of auth, users, notifications and payment methods: they leave payouts alone.
use bridge_pay_backend.Common.{ℕ, suc, Bool, List, Option, Bool-cases, inl, inr}
use bridge_pay_backend.Common.Text.{Str}
use bridge_pay_backend.Auth.Google.{
  Redirect, find_or_create_google_user, sign_in, or_failed, answer_callback, google_callback,
  is_foreign,
}
use bridge_pay_backend.Auth.Router.{
  open_user, register, verify_email, resend_verification, admit, login, refresh, logout,
  password_reset_request, password_reset_confirm, google_exchange,
}
use bridge_pay_backend.Auth.Sessions.{revoke_where, revoke_all_for_user, revoke_refresh_token}
use bridge_pay_backend.Auth.SingleUse.{
  confirm_verification_token, request_password_reset, confirm_password_reset,
  consume_oauth_handoff_code,
}
use bridge_pay_backend.Errors.{Error, Result, ok, err, incorrect_current_password, stripe_error}
use bridge_pay_backend.Notifications.{
  get_by_id_for_user, mark_notification_read, mark_all_read, mark_own_read, mark_all_own_read,
}
use bridge_pay_backend.Outside.{Outside}
use bridge_pay_backend.Json.{Json}
use bridge_pay_backend.PaymentMethods as Methods
use bridge_pay_backend.PaymentMethods.{
  list_for_user, unset_default_for_user, delete, make_room, create_stripe_setup_intent,
  confirm_stripe_card, link_mpesa_number, forgive_stripe, delete_payment_method,
  new_stripe_customer, ensure_stripe_customer,
}
use bridge_pay_backend.PaymentMethods.Router.{
  as_user, start_stripe_card_link, confirm_stripe_card_link, link_mpesa, unlink_payment_method,
}
use bridge_pay_backend.Payouts.Lifecycle.Steps.{Of}
use bridge_pay_backend.Profile.{
  change, change_email, update_profile, update_current_user, change_password, log_wrong_password,
  change_current_user_password,
}
use bridge_pay_backend.Schema.{Payout, Db, User}
use bridge_pay_backend.Session.Keeps.{Keeps, Keeps-raise, Keeps-pure}
use bridge_pay_backend.System.Life.Rules.{life_rules}
use bridge_pay_backend.Users

module _ (F : List Payout → ℕ → Type 0)
    (next : (ps : List Payout) (n : ℕ) → F ps n → F ps (suc n)) where
  module _ (o : Outside) where
    pub register-Keeps :
        (raw email password name country : Str)
        → Keeps (Of F) (register o raw email password name country)
    unfolding register open_user
    register-Keeps raw email password name country = search life_rules depth 16

    pub verify_email-Keeps : (token : Str) → Keeps (Of F) (verify_email o token)
    unfolding verify_email confirm_verification_token
    verify_email-Keeps token = search life_rules depth 16

    pub resend_verification-Keeps :
        (subject : Option ℕ) (raw : Str) → Keeps (Of F) (resend_verification o subject raw)
    unfolding resend_verification
    resend_verification-Keeps subject raw = search life_rules depth 16

    pub login-Keeps : (raw name password : Str) → Keeps (Of F) (login o raw name password)
    unfolding login admit
    login-Keeps raw name password = search life_rules depth 20

    pub refresh-Keeps : (token new : Str) → Keeps (Of F) (refresh o token new)
    unfolding refresh
    refresh-Keeps token new = search life_rules depth 16

    pub logout-Keeps : (token : Str) → Keeps (Of F) (logout o token)
    unfolding logout revoke_refresh_token revoke_where
    logout-Keeps token = search life_rules depth 16

    pub password_reset_request-Keeps :
        (raw email : Str) → Keeps (Of F) (password_reset_request o raw email)
    unfolding password_reset_request request_password_reset
    password_reset_request-Keeps raw email = search life_rules depth 16

    pub password_reset_confirm-Keeps :
        (token password : Str) → Keeps (Of F) (password_reset_confirm o token password)
    unfolding password_reset_confirm confirm_password_reset revoke_all_for_user revoke_where
    password_reset_confirm-Keeps token password = search life_rules depth 16

    pub google_exchange-Keeps : (raw code : Str) → Keeps (Of F) (google_exchange o raw code)
    unfolding google_exchange consume_oauth_handoff_code
    google_exchange-Keeps raw code = search life_rules depth 16

    find_or_create-Keeps :
        (email name id : Str) → Keeps (Of F) (find_or_create_google_user email name id)
    unfolding find_or_create_google_user Users.get_by_google_id Users.find_one
    find_or_create-Keeps email name id = search life_rules depth 20

    module _ (raw : Str) where
      sign_in-Keeps : (info : Result Json) → Keeps (Of F) (sign_in o raw info)
      unfolding sign_in
      sign_in-Keeps info = search (life_rules, find_or_create-Keeps) depth 20

      or_failed_kept :
          (start : Db) (r : Result Redirect) (s : Db)
          → Of F start
          → Of F s
          → Of F (or_failed o raw start r s).1
      unfolding or_failed
      or_failed_kept start (ok redirect) s h k = k
      or_failed_kept start (err e) s h k = h

      answer_callback-Keeps :
          (code state cookie : Option Str) (info : Result Json)
          → Keeps (Of F) (answer_callback o raw code state cookie info)
      unfolding answer_callback
      answer_callback-Keeps code state cookie info = record {
        at = λ s h. elim (Bool-cases (is_foreign o raw code state cookie)) [
          | inl e ↦ rw e h
          | inr e ↦
              rw e (or_failed_kept s (sign_in o raw info s).0 _ h ((sign_in-Keeps info).at s h))
        ];
      }

      pub google_callback-Keeps :
          (error code state cookie : Option Str) (info : Result Json)
          → Keeps (Of F) (google_callback o raw error code state cookie info)
      unfolding google_callback
      google_callback-Keeps error code state cookie info =
          search (life_rules, answer_callback-Keeps) depth 12

    wrong_password-Keeps : (id : ℕ) (e : Error) → Keeps (Of F) (log_wrong_password o id e)
    unfolding log_wrong_password
    wrong_password-Keeps id incorrect_current_password = search life_rules
    wrong_password-Keeps id _ = Keeps-raise _

    module _ (subject : Option ℕ) where
      pub update_current_user-Keeps :
          (raw : Str) (name email country : Option Str)
          → Keeps (Of F) (update_current_user o raw subject name email country)
      unfolding update_current_user update_profile change_email change
      update_current_user-Keeps raw name email country = search life_rules depth 20

      pub change_current_user_password-Keeps :
          (current new : Str) → Keeps (Of F) (change_current_user_password o subject current new)
      unfolding change_current_user_password change_password change revoke_all_for_user revoke_where
      change_current_user_password-Keeps current new =
          search (life_rules, wrong_password-Keeps) depth 20

  forgive_stripe-Keeps : (e : Error) → Keeps (Of F) (forgive_stripe e)
  unfolding forgive_stripe
  forgive_stripe-Keeps (stripe_error e) = Keeps-pure tt
  forgive_stripe-Keeps _ = Keeps-raise _

  pub ensure_stripe_customer-Keeps :
      (customer : Result Str) (user : User) → Keeps (Of F) (ensure_stripe_customer customer user)
  unfolding ensure_stripe_customer new_stripe_customer
  ensure_stripe_customer-Keeps customer user = search life_rules depth 12

  make_room-Keeps : (b : Bool) (user_id : ℕ) → Keeps (Of F) (make_room b user_id)
  unfolding make_room unset_default_for_user
  make_room-Keeps b user_id = search life_rules depth 12

  module _ (subject : Option ℕ) where
    pub mark_own_read-Keeps : (id : Option ℕ) → Keeps (Of F) (mark_own_read subject id)
    unfolding mark_own_read mark_notification_read get_by_id_for_user
    mark_own_read-Keeps id = search life_rules depth 16

    pub mark_all_own_read-Keeps : Keeps (Of F) (mark_all_own_read subject)
    unfolding mark_all_own_read mark_all_read
    mark_all_own_read-Keeps = search life_rules depth 16

    pub start_stripe_card_link-Keeps :
        (customer secret : Result Str)
        → Keeps (Of F) (start_stripe_card_link subject customer secret)
    unfolding start_stripe_card_link as_user create_stripe_setup_intent
    start_stripe_card_link-Keeps customer secret =
        search (life_rules, ensure_stripe_customer-Keeps) depth 16

    pub confirm_stripe_card_link-Keeps :
        (customer : Result Str) (owner : Result (Option Str)) (attached : Result (Unit {0}))
        (id : Str) (d : Bool)
        → Keeps (Of F) (confirm_stripe_card_link subject customer owner attached id d)
    unfolding confirm_stripe_card_link as_user confirm_stripe_card Methods.create
    confirm_stripe_card_link-Keeps customer owner attached id d =
        search (life_rules, ensure_stripe_customer-Keeps, make_room-Keeps) depth 16

    pub link_mpesa-Keeps : (phone : Str) (d : Bool) → Keeps (Of F) (link_mpesa subject phone d)
    unfolding link_mpesa as_user link_mpesa_number list_for_user Methods.create
    link_mpesa-Keeps phone d = search (life_rules, make_room-Keeps) depth 16

    pub unlink_payment_method-Keeps :
        (detached : Result (Unit {0})) (id : Option ℕ)
        → Keeps (Of F) (unlink_payment_method subject detached id)
    unfolding unlink_payment_method as_user delete_payment_method delete Methods.get_by_id_for_user
    unlink_payment_method-Keeps detached id = search (life_rules, forgive_stripe-Keeps) depth 16

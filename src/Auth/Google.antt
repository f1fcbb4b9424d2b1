-- ===== src/Auth/Google.antt =====
-- app/modules/auth: `find_or_create_google_user` (service.py), and the callback that Google redirects to
-- (router.py). `user_info` is what the exchange of the code and the request for the user give.
use bridge_pay_backend.Common.{Bool, true, false, not, ◌||◌, Option, none, some, if◌then◌else◌}
use bridge_pay_backend.Common.Text.{Str, codes, str_eq, is_given}
use bridge_pay_backend.Errors.{Result, ok, err}
use bridge_pay_backend.Json.{Json, bool, get_or, get_item, is_truthy, as_text}
use bridge_pay_backend.Outside.{Outside}
use bridge_pay_backend.Schema.{User, Db}
use bridge_pay_backend.Session.{Action, pure, lift, modify, option_case, rollback, ◌>>=◌, ◌>>◌}
use bridge_pay_backend.Accounts
use bridge_pay_backend.Audit.{log_action}
use bridge_pay_backend.Auth.{TokenTable}
use bridge_pay_backend.Auth.SingleUse.{issue}
use bridge_pay_backend.Users

unfoldable pub link_google : Str → User → User
link_google google_id u = record u { google_id = some google_id; is_verified = true }

unfoldable pub verify : User → User
verify u = record u { is_verified = true }

unfoldable pub find_or_create_google_user : Str → Str → Str → Action User
unfolding link_google verify
find_or_create_google_user email full_name google_id = do
  existing_by_google_id ← Users.get_by_google_id google_id
  option_case existing_by_google_id
      (do
        existing_by_email ← Users.get_by_email email
        option_case existing_by_email
            (do
              new_user ← Users.create email none full_name none (some google_id)
              modify (Users.change_row new_user.id verify)
              Accounts.create new_user.id
              pure (verify new_user))
            λ user. do
              modify (Users.change_row user.id (link_google google_id))
              pure (link_google google_id user))
      pure

-- Where the browser is sent: to the frontend with a code, or with an error.
pub data Redirect : Type 0 where
  with_code with_error : Str → Redirect

module _ (o : Outside) (raw_code : Str) where
  unfoldable pub sign_in : Result Json → Action Redirect
  sign_in user_info = do
    info ← lift user_info
    email_verified ← lift (get_or info (codes "email_verified") (bool false))
    if not (is_truthy email_verified) then pure (with_error (codes "email_not_verified")) else do
      email ← lift (get_item info (codes "email"))
      name ← lift (get_or info (codes "name") email)
      sub ← lift (get_item info (codes "sub"))
      email_text ← lift (as_text email)
      name_text ← lift (as_text name)
      sub_text ← lift (as_text sub)
      user ← find_or_create_google_user email_text name_text sub_text
      log_action (codes "google_login_success") (some user.id)
      handoff_code ← issue o TokenTable.oauth_handoff raw_code user.id
      pure (with_code handoff_code)

  -- `except Exception`: a rollback and a redirect.
  unfoldable pub or_failed : Db → Result Redirect → Action Redirect
  or_failed start (ok redirect) s = (ok redirect, s)
  or_failed start (err e) s = (ok (with_error (codes "google_auth_failed")), rollback start s)

  -- `not code or not state or not cookie_state or state != cookie_state`
  unfoldable pub is_foreign : Option Str → Option Str → Option Str → Bool
  is_foreign code (some state) (some cookie_state) =
      not (is_given code)
      || not (is_given (some state))
      || not (is_given (some cookie_state))
      || not (str_eq state cookie_state)
  is_foreign code _ _ = true

  -- The callback without an error of Google's.
  unfoldable pub answer_callback :
      Option Str → Option Str → Option Str → Result Json → Action Redirect
  unfolding or_failed
  answer_callback code state cookie_state user_info s =
      if is_foreign code state cookie_state
      then (ok (with_error (codes "invalid_state")), s)
      else (let (r, s') = sign_in user_info s in or_failed s r s')

  unfoldable pub google_callback :
      Option Str → Option Str → Option Str → Option Str → Result Json → Action Redirect
  google_callback error code state cookie_state user_info =
      option_case error (answer_callback code state cookie_state user_info) λ e.
        if is_given (some e)
        then pure (with_error e)
        else answer_callback code state cookie_state user_info

-- ===== src/Auth/Router.antt =====
-- app/modules/auth/router.py. Access tokens are left out: a route that gives one gives the user's id here.
use bridge_pay_backend.Common.{ℕ, Bool, true, false, not, Option, none, some}
use bridge_pay_backend.Common.Text.{Str, codes}
use bridge_pay_backend.Core.Dependencies.{get_current_user}
use bridge_pay_backend.Errors.{
  Error, email_already_registered, email_already_verified, incorrect_credentials,
  email_verification_token_invalid, password_reset_token_invalid, refresh_token_reused,
  refresh_token_invalid,
}
use bridge_pay_backend.Outside.{Outside}
use bridge_pay_backend.Schema.{User}
use bridge_pay_backend.Session.{
  Action, pure, raise, raise_if, option_case, catch, endpoint, ◌>>=◌, ◌>>◌,
}
use bridge_pay_backend.Accounts
use bridge_pay_backend.Audit.{log_action}
use bridge_pay_backend.Auth.{TokenTable}
use bridge_pay_backend.Auth.Sessions.{
  issue_refresh_token, rotate_refresh_token, revoke_refresh_token,
}
use bridge_pay_backend.Auth.SingleUse.{
  issue, confirm_verification_token, request_password_reset, confirm_password_reset,
  consume_oauth_handoff_code,
}
use bridge_pay_backend.Users

-- The errors that a route answers behind a commit of its audit entry.
unfoldable pub is_answered : Error → Bool
is_answered email_already_registered = true
is_answered incorrect_credentials = true
is_answered email_verification_token_invalid = true
is_answered password_reset_token_invalid = true
is_answered refresh_token_reused = true
is_answered refresh_token_invalid = true
is_answered _ = false

-- An audit entry, and the error.
abbrev pub logged : {A : Type 0} → Str → Option ℕ → Error → Action A
logged action user_id e = log_action action user_id >> raise e

-- The `except` clauses round a token: an audit entry for the errors that the route knows.
unfoldable pub log_token_failure : {A : Type 0} → Error → Action A
log_token_failure email_verification_token_invalid =
    logged (codes "email_verification_failed") none email_verification_token_invalid
log_token_failure password_reset_token_invalid =
    logged (codes "password_reset_failed") none password_reset_token_invalid
log_token_failure refresh_token_reused =
    logged (codes "refresh_token_reuse_detected") none refresh_token_reused
log_token_failure refresh_token_invalid = logged (codes "refresh_failed") none refresh_token_invalid
log_token_failure e = raise e

module _ (o : Outside) where
  unfoldable pub open_user : Str → Str → Str → Str → Str → Action User
  open_user raw_token email password full_name country = do
    user ← Users.create email (some (o.hash_password password)) full_name (some country) none
    Accounts.create user.id
    issue o TokenTable.email_verification raw_token user.id
    log_action (codes "register") (some user.id)
    pure user

  unfoldable pub register : Str → Str → Str → Str → Str → Action User
  register raw_token email password full_name country = endpoint is_answered do
    existing ← Users.get_by_email email
    option_case existing (open_user raw_token email password full_name country)
        λ other. logged (codes "register_failed_duplicate_email") none email_already_registered

  unfoldable pub verify_email : Str → Action (Unit {0})
  verify_email token = endpoint is_answered do
    catch (confirm_verification_token o token) log_token_failure
    log_action (codes "email_verified") none

  unfoldable pub resend_verification : Option ℕ → Str → Action (Unit {0})
  resend_verification subject raw_token = endpoint is_answered do
    current_user ← get_current_user subject
    raise_if current_user.is_verified email_already_verified
    issue o TokenTable.email_verification raw_token current_user.id
    log_action (codes "verification_email_resent") (some current_user.id)

  -- A user with a password is let in with it alone.
  unfoldable pub admit : Str → Str → User → Action (ℕ × Str)
  admit raw_token password user =
      option_case user.hashed_password
        (logged (codes "login_failed") (some user.id) incorrect_credentials)
        λ hashed. do
          catch (raise_if (not (o.verify_password password hashed)) incorrect_credentials)
              (λ e. logged (codes "login_failed") (some user.id) e)
          log_action (codes "login_success") (some user.id)
          refresh_token ← issue_refresh_token o raw_token user.id
          pure (user.id, refresh_token)

  unfoldable pub login : Str → Str → Str → Action (ℕ × Str)
  login raw_token username password = endpoint is_answered do
    found ← Users.get_by_email username
    option_case found (logged (codes "login_failed") none incorrect_credentials)
        (admit raw_token password)

  unfoldable pub refresh : Str → Str → Action (ℕ × Str)
  refresh refresh_token new_token = endpoint is_answered do
    tokens ← catch (rotate_refresh_token o refresh_token new_token) log_token_failure
    log_action (codes "token_refreshed") none
    pure tokens

  unfoldable pub logout : Str → Action (Unit {0})
  logout refresh_token =
      endpoint is_answered do revoke_refresh_token o refresh_token; log_action (codes "logout") none

  -- The answer does not tell whether the address is known.
  unfoldable pub password_reset_request : Str → Str → Action (Unit {0})
  password_reset_request raw_token email = endpoint is_answered do
    token ← request_password_reset o raw_token email
    log_action (codes "password_reset_requested") none

  unfoldable pub password_reset_confirm : Str → Str → Action (Unit {0})
  password_reset_confirm token new_password = endpoint is_answered do
    catch (confirm_password_reset o token new_password) log_token_failure
    log_action (codes "password_reset_completed") none

  unfoldable pub google_exchange : Str → Str → Action (ℕ × Str)
  google_exchange raw_token code = endpoint is_answered do
    user_id ← consume_oauth_handoff_code o code
    refresh_token ← issue_refresh_token o raw_token user_id
    pure (user_id, refresh_token)

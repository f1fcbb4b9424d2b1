-- ===== src/Profile.antt =====
-- app/modules/users (service.py, router.py): a user's own profile and password.
pub mod Sessions
use bridge_pay_backend.Common.{ℕ, Bool, true, false, not, Option, none, some, ◌==◌, if◌then◌else◌}
use bridge_pay_backend.Common.Text.{Str, codes, str_eq}
use bridge_pay_backend.Core.Dependencies.{get_current_user}
use bridge_pay_backend.Errors.{
  Error, email_already_taken, incorrect_current_password, attribute_error,
}
use bridge_pay_backend.Outside.{Outside}
use bridge_pay_backend.Schema.{User, NotificationType}
use bridge_pay_backend.Session.{
  Action, pure, raise, raise_if, modify, option_case, catch, endpoint, ◌>>=◌, ◌>>◌,
}
use bridge_pay_backend.Audit.{log_action}
use bridge_pay_backend.Auth.{TokenTable}
use bridge_pay_backend.Auth.Sessions.{revoke_all_for_user}
use bridge_pay_backend.Auth.SingleUse.{issue}
use bridge_pay_backend.Notifications.{notify}
use bridge_pay_backend.Users

-- A change of the object, and its flush into the row.
unfoldable pub change : (User → User) → User → Action User
change f user = do modify (Users.change_row user.id f); pure (f user)

-- `if full_name is not None: ...` and `if country is not None: ...`
unfoldable pub with_names : Option Str → Option Str → User → User
with_names none none u = u
with_names (some full_name) none u = record u { full_name = full_name }
with_names none (some country) u = record u { country = some country }
with_names (some full_name) (some country) u = record u {
  full_name = full_name;
  country = some country;
}

-- `existing is not None and existing.id != user.id`
unfoldable pub is_other : ℕ → Option User → Bool
is_other user_id none = false
is_other user_id (some existing) = not (existing.id == user_id)

unfoldable pub with_email : Str → User → User
with_email email u = record u { email = email; is_verified = false }

module _ (o : Outside) (raw_token : Str) where
  unfoldable pub change_email : Str → User → Action User
  unfolding with_email
  change_email email user = do
    existing ← Users.get_by_email email
    raise_if (is_other user.id existing) email_already_taken
    user ← change (with_email email) user
    issue o TokenTable.email_verification raw_token user.id
    notify user.id NotificationType.account_update none
    pure user

  -- `update_profile`
  unfoldable pub update_profile : User → Option Str → Option Str → Option Str → Action User
  unfolding with_names
  update_profile user full_name email country = do
    user ← change (with_names full_name country) user
    option_case email (pure user)
        λ email. if str_eq email user.email then pure user else change_email email user

  -- `update_current_user`
  unfoldable pub update_current_user : Option ℕ → Option Str → Option Str → Option Str → Action User
  update_current_user subject full_name email country =
      endpoint (λ e. false)
        do
          current_user ← get_current_user subject
          updated_user ← update_profile current_user full_name email country
          log_action (codes "profile_updated") (some current_user.id)
          pure updated_user

-- `read_current_user`
unfoldable pub read_current_user : Option ℕ → Action User
read_current_user subject = get_current_user subject

module _ (o : Outside) where
  -- `change_password`: `verify_password` encodes the hash, and None has no `encode`.
  unfoldable pub change_password : User → Str → Str → Action (Unit {0})
  change_password user current_password new_password =
      option_case user.hashed_password (raise attribute_error) λ hashed. do
        raise_if (not (o.verify_password current_password hashed)) incorrect_current_password
        change (λ u. record u { hashed_password = some (o.hash_password new_password) }) user
        revoke_all_for_user user.id
        notify user.id NotificationType.security_alert none

  unfoldable pub log_wrong_password : ℕ → Error → Action (Unit {0})
  log_wrong_password user_id incorrect_current_password =
      log_action (codes "change_password_failed") (some user_id) >> raise incorrect_current_password
  log_wrong_password user_id e = raise e

  unfoldable pub is_wrong_password : Error → Bool
  is_wrong_password incorrect_current_password = true
  is_wrong_password _ = false

  -- `change_current_user_password`
  unfoldable pub change_current_user_password : Option ℕ → Str → Str → Action (Unit {0})
  change_current_user_password subject current_password new_password = endpoint is_wrong_password do
    current_user ← get_current_user subject
    catch (change_password current_user current_password new_password)
        (log_wrong_password current_user.id)
    log_action (codes "password_changed") (some current_user.id)

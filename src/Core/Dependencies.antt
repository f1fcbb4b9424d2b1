-- ===== src/Core/Dependencies.antt =====
-- app/core/dependencies.py: who may call a route. `subject` is what `decode_access_token` and
-- `uuid.UUID` make of the bearer token: none where either refuses it.
use bridge_pay_backend.Common.{ℕ, not, Option}
use bridge_pay_backend.Errors.{credentials_rejected, not_admin, not_verified}
use bridge_pay_backend.Schema.{User}
use bridge_pay_backend.Session.{Action, pure, raise, raise_if, option_case, ◌>>=◌, ◌>>◌}
use bridge_pay_backend.Users

unfoldable pub get_current_user : Option ℕ → Action User
get_current_user subject = option_case subject (raise credentials_rejected) λ user_id. do
  found ← Users.get_by_id user_id
  option_case found (raise credentials_rejected)
      λ user. do raise_if (not user.is_active) credentials_rejected; pure user

unfoldable pub get_current_admin_user : Option ℕ → Action User
get_current_admin_user subject = do
  current_user ← get_current_user subject
  raise_if (not current_user.is_admin) not_admin
  pure current_user

unfoldable pub get_current_verified_user : Option ℕ → Action User
get_current_verified_user subject = do
  current_user ← get_current_user subject
  raise_if (not current_user.is_verified) not_verified
  pure current_user

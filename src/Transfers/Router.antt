-- ===== src/Transfers/Router.antt =====
-- app/modules/transfers/router.py: the transfer, its audit log and its notifications in one session.
use bridge_pay_backend.Common.{ℕ, Bool, true, false, Option, some}
use bridge_pay_backend.Common.Text.{Str, codes}
use bridge_pay_backend.Errors.{
  Error, self_transfer, recipient_not_found, account_not_found, insufficient_funds, attribute_error,
}
use bridge_pay_backend.Outside.{Outside}
use bridge_pay_backend.Schema.{User, Transaction, NotificationType}
use bridge_pay_backend.Session.{Action, pure, raise, option_case, catch, endpoint, ◌>>=◌, ◌>>◌}
use bridge_pay_backend.Audit.{log_action}
use bridge_pay_backend.Core.Dependencies.{get_current_verified_user}
use bridge_pay_backend.Notifications.{notify}
use bridge_pay_backend.Transfers.{execute_transfer}
use bridge_pay_backend.Users

-- The errors that the route answers itself, behind a commit.
unfoldable pub is_answered : Error → Bool
is_answered insufficient_funds = true
is_answered self_transfer = true
is_answered recipient_not_found = true
is_answered account_not_found = true
is_answered _ = false

-- The `except` clauses: an entry in the audit log for each failure that the route knows.
unfoldable pub log_failure : User → Error → Action Transaction
log_failure user insufficient_funds =
    log_action (codes "transfer_failed_insufficient_funds") (some user.id)
    >> raise insufficient_funds
log_failure user self_transfer =
    log_action (codes "transfer_failed_self_transfer") (some user.id) >> raise self_transfer
log_failure user recipient_not_found =
    log_action (codes "transfer_failed_recipient_not_found") (some user.id)
    >> raise recipient_not_found
log_failure user account_not_found =
    log_action (codes "transfer_failed_account_not_found") (some user.id) >> raise account_not_found
log_failure user e = raise e

unfoldable pub tell_both : User → Str → Transaction → Action Transaction
tell_both current_user to_email transaction = do
  log_action (codes "transfer_completed") (some current_user.id)
  found ← Users.get_by_email to_email
  option_case found (raise attribute_error) λ recipient. do
    notify current_user.id NotificationType.transfer_sent (some transaction.id)
    notify recipient.id NotificationType.transfer_received (some transaction.id)
    pure transaction

-- `create_transfer`
unfoldable pub create_transfer : Outside → Option ℕ → Str → ℕ → Option Str → Action Transaction
create_transfer o subject to_email amount reference_note = endpoint is_answered do
  current_user ← get_current_verified_user subject
  transaction ←
      catch (execute_transfer o current_user to_email amount reference_note)
        (log_failure current_user)
  tell_both current_user to_email transaction

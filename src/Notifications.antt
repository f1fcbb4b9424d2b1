-- ===== src/Notifications.antt =====
-- app/modules/notifications (repository.py, service.py, router.py). The mocked e-mail that `notify`
-- queues changes no table, and a failure to queue it is swallowed: it is left out, as is the prose.
pub mod Inbox
use bridge_pay_backend.Common.{
  ℕ, Bool, true, false, not, ◌&&◌, List, ◌∷◌, Option, ◌==◌, if◌then◌else◌,
}
use bridge_pay_backend.Common.Table.{select, update, length, paginate}
use bridge_pay_backend.Core.Dependencies.{get_current_user}
use bridge_pay_backend.Errors.{notification_not_found}
use bridge_pay_backend.Schema.{Notification, NotificationType}
use bridge_pay_backend.Session.{
  Action, pure, raise, lift, gets, modify, fresh_id, option_case, endpoint, ◌>>=◌,
  scalar_one_or_none,
}

-- `NotificationRepository.create`, all that `notify` does to the tables
unfoldable pub notify : ℕ → NotificationType → Option ℕ → Action (Unit {0})
notify user_id type transaction_id = do
  id ← fresh_id
  let notification : Notification = record {
    id = id;
    user_id = user_id;
    transaction_id = transaction_id;
    type = type;
    is_read = false;
  }
  modify (λ s. record s { notifications = notification ∷ s.notifications })

abbrev pub for_user : ℕ → Notification → Bool
for_user user_id n = n.user_id == user_id

-- `NotificationRepository.list_for_user`, newest first, with the number of all that fit.
unfoldable pub list_for_user : ℕ → ℕ → ℕ → Bool → Action (List Notification × ℕ)
list_for_user user_id page page_size unread_only = do
  rows ← gets (λ s.
      select (λ n. for_user user_id n && (if unread_only then not n.is_read else true))
        s.notifications)
  pure (paginate page page_size rows, length rows)

-- `list_my_notifications`: the page, the total, and the number of unread ones.
unfoldable pub list_my_notifications : ℕ → ℕ → ℕ → Bool → Action (List Notification × ℕ × ℕ)
list_my_notifications user_id page page_size unread_only = do
  (items, total) ← list_for_user user_id page page_size unread_only
  (_, unread_count) ← list_for_user user_id 1 1 true
  pure (items, total, unread_count)

abbrev pub is_own : ℕ → ℕ → Notification → Bool
is_own id user_id n = (n.id == id) && for_user user_id n

-- `NotificationRepository.get_by_id_for_user`
unfoldable pub get_by_id_for_user : ℕ → ℕ → Action (Option Notification)
get_by_id_for_user notification_id user_id = do
  rows ← gets (λ s. select (is_own notification_id user_id) s.notifications)
  lift (scalar_one_or_none rows)

unfoldable pub read : Notification → Notification
read n = record n { is_read = true }

-- `mark_notification_read`; the id is none where `uuid.UUID` refuses the text.
unfoldable pub mark_notification_read : Option ℕ → ℕ → Action (Unit {0})
unfolding read
mark_notification_read notification_id user_id =
    option_case notification_id (raise notification_not_found) λ id. do
      found ← get_by_id_for_user id user_id
      option_case found (raise notification_not_found) λ notification. modify (λ s. record s {
        notifications = update (λ n. n.id == notification.id) read s.notifications;
      })

-- `NotificationRepository.mark_all_read`
unfoldable pub mark_all_read : ℕ → Action (Unit {0})
unfolding read
mark_all_read user_id =
    modify (λ s. record s { notifications = update (for_user user_id) read s.notifications })

-- The two routes, with their dependency.
unfoldable pub mark_own_read : Option ℕ → Option ℕ → Action (Unit {0})
mark_own_read subject notification_id =
    endpoint (λ e. false)
      do
        current_user ← get_current_user subject
        mark_notification_read notification_id current_user.id

unfoldable pub mark_all_own_read : Option ℕ → Action (Unit {0})
mark_all_own_read subject =
    endpoint (λ e. false) do current_user ← get_current_user subject; mark_all_read current_user.id

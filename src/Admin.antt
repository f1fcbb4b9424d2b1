-- ===== src/Admin.antt =====
-- app/modules/admin (repository.py, service.py, router.py) and app/modules/audit/repository.py: what an
-- administrator may read.
pub mod Guarded
use bridge_pay_backend.Common.{ℕ, Bool, true, List, [], Option, none, some, if◌then◌else◌}
use bridge_pay_backend.Common.Table.{select, length, paginate}
use bridge_pay_backend.Common.Text.{Str, str_eq, is_given}
use bridge_pay_backend.Core.Dependencies.{get_current_admin_user}
use bridge_pay_backend.Schema.{Transaction, AuditLog}
use bridge_pay_backend.Session.{Action, pure, gets, option_case, ◌>>=◌}
use bridge_pay_backend.Accounts.{get_by_user_id}
use bridge_pay_backend.Transactions.{list_all}
use bridge_pay_backend.Users

-- `AdminRepository.resolve_account_id_for_email`
unfoldable pub resolve_account_id_for_email : Str → Action (Option ℕ)
resolve_account_id_for_email email = do
  found ← Users.get_by_email email
  option_case found (pure none) λ user. do
    account ← get_by_user_id user.id
    option_case account (pure none) (λ a. pure (some a.id))

-- `list_transactions_for_admin`: an address without an account finds nothing.
unfoldable pub list_transactions_for_admin : ℕ → ℕ → Option Str → Action (List Transaction × ℕ)
list_transactions_for_admin page page_size none = list_all page page_size none
list_transactions_for_admin page page_size (some user_email) = do
  account_id ← resolve_account_id_for_email user_email
  option_case account_id (pure ([], 0)) (λ id. list_all page page_size (some id))

-- `if action: query.where(AuditLog.action == action)`
unfoldable pub is_action : Option Str → AuditLog → Bool
is_action none l = true
is_action (some action) l = if is_given (some action) then str_eq l.action action else true

-- `AuditLogRepository.list_all`
unfoldable pub list_audit_logs_for_admin : ℕ → ℕ → Option Str → Action (List AuditLog × ℕ)
unfolding is_action
list_audit_logs_for_admin page page_size action = do
  rows ← gets (λ s. select (is_action action) s.audit_logs)
  pure (paginate page page_size rows, length rows)

-- The two routes, behind `get_current_admin_user`.
unfoldable pub list_all_transactions : Option ℕ → ℕ → ℕ → Option Str → Action (List Transaction × ℕ)
list_all_transactions subject page page_size user_email = do
  admin ← get_current_admin_user subject
  list_transactions_for_admin page page_size user_email

unfoldable pub list_audit_logs : Option ℕ → ℕ → ℕ → Option Str → Action (List AuditLog × ℕ)
list_audit_logs subject page page_size action = do
  admin ← get_current_admin_user subject
  list_audit_logs_for_admin page page_size action

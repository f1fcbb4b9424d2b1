-- ===== src/Accounts/Router.antt =====
-- app/modules/accounts/router.py.
use bridge_pay_backend.Common.{ℕ, Option}
use bridge_pay_backend.Core.Dependencies.{get_current_user}
use bridge_pay_backend.Schema.{Account}
use bridge_pay_backend.Session.{Action, ◌>>=◌}
use bridge_pay_backend.Accounts.{get_my_account}

unfoldable pub read_my_account : Option ℕ → Action Account
read_my_account subject = do current_user ← get_current_user subject; get_my_account current_user.id

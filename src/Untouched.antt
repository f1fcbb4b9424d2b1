-- ===== src/Untouched.antt =====
-- Rules about the ledger for what does not touch accounts and transactions: lookups, notifications, the
-- audit log, the rate cache. `sound_rules` has them together with the rules for building actions.
use bridge_pay_backend.Common.{ℕ, Bool, Option}
use bridge_pay_backend.Common.Text.{Str}
use bridge_pay_backend.Schema.{NotificationType, Db}
use bridge_pay_backend.Session.{Action, modify, catch, endpoint}
use bridge_pay_backend.Errors.{Error}
use bridge_pay_backend.Session.Keeps.{
  Keeps, keeps_rules, Keeps-bind, Leads-modify, Leads-catch, Keeps-endpoint,
}
use bridge_pay_backend.Accounts.{get_by_user_id}
use bridge_pay_backend.Accounts.Balance.{IsSound}
use bridge_pay_backend.Accounts.Locked.{Keeps-fresh_id}
use bridge_pay_backend.Audit.{log_action}
use bridge_pay_backend.Core.Dependencies.{get_current_user, get_current_verified_user}
use bridge_pay_backend.Core.Rates.{Feed, convert}
use bridge_pay_backend.Core.Rates.Cache.{Keeps-convert}
use bridge_pay_backend.Notifications.{notify}
use bridge_pay_backend.Users

-- A change of other tables.
pub Keeps-elsewhere :
    (f : Db → Db) → ((s : Db) → IsSound s → IsSound (f s)) → Keeps IsSound (modify f)
Keeps-elsewhere f h = Leads-modify f h

pub Keeps-log_action :
    (action : Str) (user_id : Option ℕ) → Keeps IsSound (log_action action user_id)
unfolding log_action
Keeps-log_action action user_id = Keeps-elsewhere _ (λ s h. h)

pub Keeps-notify :
    (user_id : ℕ) (type : NotificationType) (transaction_id : Option ℕ)
    → Keeps IsSound (notify user_id type transaction_id)
unfolding notify
Keeps-notify user_id type transaction_id =
    Keeps-bind _ _ Keeps-fresh_id (λ id. Keeps-elsewhere _ (λ s h. h))

pub Keeps-convert-IsSound :
    (now : ℕ) (feed : Feed) (amount : ℕ) (f t : Str) → Keeps IsSound (convert now feed amount f t)
Keeps-convert-IsSound = Keeps-convert (λ s cache h. h)

pub Keeps-get_user : (user_id : ℕ) → Keeps IsSound (Users.get_user user_id)
unfolding Users.get_user
Keeps-get_user user_id = search keeps_rules

pub Keeps-get_by_email : (email : Str) → Keeps IsSound (Users.get_by_email email)
unfolding Users.get_by_email Users.find_one
Keeps-get_by_email email = search keeps_rules

pub Keeps-get_by_user_id : (user_id : ℕ) → Keeps IsSound (get_by_user_id user_id)
unfolding get_by_user_id
Keeps-get_by_user_id user_id = search keeps_rules

pub Keeps-get_current_user : (subject : Option ℕ) → Keeps IsSound (get_current_user subject)
unfolding get_current_user Users.get_by_id Users.find_one
Keeps-get_current_user subject = search keeps_rules depth 12

pub Keeps-get_current_verified_user :
    (subject : Option ℕ) → Keeps IsSound (get_current_verified_user subject)
unfolding get_current_verified_user
Keeps-get_current_verified_user subject = search (keeps_rules, Keeps-get_current_user) depth 12

pub Keeps-endpoint-IsSound :
    {A : Type 0} (commits : Error → Bool) (m : Action A)
    → Keeps IsSound m
    → Keeps IsSound (endpoint commits m)
Keeps-endpoint-IsSound = Keeps-endpoint (λ start s h. h)

pub Keeps-catch-IsSound :
    {A : Type 0} (m : Action A) (handler : Error → Action A)
    → Keeps IsSound m
    → ((e : Error) → Keeps IsSound (handler e))
    → Keeps IsSound (catch m handler)
Keeps-catch-IsSound m handler km kh = Leads-catch m handler km (λ s h. h) kh

pub ruleset sound_rules = (
  keeps_rules, Keeps-fresh_id, Keeps-log_action, Keeps-notify, Keeps-convert-IsSound,
  Keeps-get_user, Keeps-get_by_email, Keeps-get_by_user_id, Keeps-get_current_user,
  Keeps-get_current_verified_user, Keeps-endpoint-IsSound, Keeps-catch-IsSound,
)

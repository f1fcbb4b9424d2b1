-- ===== src/System/Life/Rules.antt =====
-- Rules about a property `F` of the payouts and of the next id, for what works on other tables.
use bridge_pay_backend.Common.{ℕ, suc, Bool, List, Option}
use bridge_pay_backend.Common.Text.{Str}
use bridge_pay_backend.Accounts
use bridge_pay_backend.Audit.{log_action}
use bridge_pay_backend.Auth.{
  TokenTable, with_tokens, get_refresh_by_hash, create_refresh, get_by_hash, create_single_use,
}
use bridge_pay_backend.Auth.Router.{log_token_failure}
use bridge_pay_backend.Auth.Sessions.{
  revoke_where, issue_refresh_token, rotate_stored, rotate_refresh_token, revoke_all_for_user,
}
use bridge_pay_backend.Auth.SingleUse.{issue, consume, owner_of}
use bridge_pay_backend.Core.Dependencies.{get_current_user, get_current_verified_user}
use bridge_pay_backend.Core.Rates.{Feed, convert}
use bridge_pay_backend.Errors.{
  Error, email_verification_token_invalid, password_reset_token_invalid, refresh_token_reused,
  refresh_token_invalid,
}
use bridge_pay_backend.Notifications.{notify}
use bridge_pay_backend.Outside.{Outside}
use bridge_pay_backend.Payouts.Lifecycle.Steps.{
  Of, Keeps-Of_elsewhere, Keeps-Of_rate, Keeps-Of-fresh_id, Keeps-Of-add, Keeps-Of-notify,
  Keeps-Of-get_user, Keeps-Of_account,
}
use bridge_pay_backend.Schema.{
  Payout, Db, SingleUseToken, NotificationType, Decimal, TransactionType, ReferenceNote,
}
use bridge_pay_backend.Session.{Action, modify, catch, endpoint, fresh_id}
use bridge_pay_backend.Session.Keeps.{Keeps, keeps_rules, Leads-catch, Keeps-endpoint, Keeps-raise}
use bridge_pay_backend.Users

module _ (F : List Payout → ℕ → Type 0)
    (next : (ps : List Payout) (n : ℕ) → F ps n → F ps (suc n)) where
  pub elsewhere : (f : Db → Db) → ((s : Db) → Of F s → Of F (f s)) → Keeps (Of F) (modify f)
  elsewhere = Keeps-Of_elsewhere F

  pub kept_by_fresh_id : Keeps (Of F) fresh_id
  kept_by_fresh_id = Keeps-Of-fresh_id F next

  pub kept_by_endpoint :
      {A : Type 0} (commits : Error → Bool) (m : Action A)
      → Keeps (Of F) m
      → Keeps (Of F) (endpoint commits m)
  kept_by_endpoint = Keeps-endpoint (λ start s h. h)

  pub kept_by_catch :
      {A : Type 0} (m : Action A) (handler : Error → Action A)
      → Keeps (Of F) m
      → ((e : Error) → Keeps (Of F) (handler e))
      → Keeps (Of F) (catch m handler)
  kept_by_catch m handler km kh = Leads-catch m handler km (λ s h. h) kh

  ruleset basic = (keeps_rules, elsewhere, kept_by_fresh_id, kept_by_endpoint, kept_by_catch)

  pub kept_by_log_action :
      (action : Str) (user_id : Option ℕ) → Keeps (Of F) (log_action action user_id)
  unfolding log_action
  kept_by_log_action action user_id = search basic

  pub kept_by_get_by_id : (id : ℕ) → Keeps (Of F) (Users.get_by_id id)
  unfolding Users.get_by_id Users.find_one
  kept_by_get_by_id id = search basic

  pub kept_by_get_by_email : (email : Str) → Keeps (Of F) (Users.get_by_email email)
  unfolding Users.get_by_email Users.find_one
  kept_by_get_by_email email = search basic

  pub kept_by_get_by_user_id : (id : ℕ) → Keeps (Of F) (Accounts.get_by_user_id id)
  unfolding Accounts.get_by_user_id
  kept_by_get_by_user_id id = search basic

  pub kept_by_get_current_user : (subject : Option ℕ) → Keeps (Of F) (get_current_user subject)
  unfolding get_current_user
  kept_by_get_current_user subject = search (basic, kept_by_get_by_id) depth 12

  pub kept_by_get_current_verified_user :
      (subject : Option ℕ) → Keeps (Of F) (get_current_verified_user subject)
  unfolding get_current_verified_user
  kept_by_get_current_verified_user subject = search (basic, kept_by_get_current_user) depth 12

  pub kept_by_users_create :
      (email : Str) (hash : Option Str) (name : Str) (country google : Option Str)
      → Keeps (Of F) (Users.create email hash name country google)
  unfolding Users.create
  kept_by_users_create email hash name country google = search basic depth 16

  pub kept_by_accounts_create : (user_id : ℕ) → Keeps (Of F) (Accounts.create user_id)
  unfolding Accounts.create
  kept_by_accounts_create user_id = search basic depth 16

  pub kept_by_issue_refresh_token :
      (o : Outside) (raw : Str) (user_id : ℕ) → Keeps (Of F) (issue_refresh_token o raw user_id)
  unfolding issue_refresh_token create_refresh
  kept_by_issue_refresh_token o raw user_id = search basic depth 16

  with_tokens_kept :
      (table : TokenTable) (ts : List SingleUseToken) (s : Db)
      → Of F s
      → Of F (with_tokens table ts s)
  unfolding with_tokens
  with_tokens_kept TokenTable.email_verification ts s h = h
  with_tokens_kept TokenTable.password_reset ts s h = h
  with_tokens_kept TokenTable.oauth_handoff ts s h = h

  kept_by_with_tokens :
      (table : TokenTable) (f : Db → List SingleUseToken)
      → Keeps (Of F) (modify (λ s. with_tokens table (f s) s))
  kept_by_with_tokens table f = elsewhere _ (λ s h. with_tokens_kept table (f s) s h)

  pub kept_by_issue :
      (o : Outside) (table : TokenTable) (raw : Str) (user_id : ℕ)
      → Keeps (Of F) (issue o table raw user_id)
  unfolding issue create_single_use
  kept_by_issue o table raw user_id = search (basic, kept_by_with_tokens) depth 16

  pub kept_by_consume :
      (o : Outside) (table : TokenTable) (raw : Str) → Keeps (Of F) (consume o table raw)
  unfolding consume get_by_hash
  kept_by_consume o table raw = search (basic, kept_by_with_tokens) depth 16

  pub kept_by_rotate : (o : Outside) (raw new : Str) → Keeps (Of F) (rotate_refresh_token o raw new)
  unfolding rotate_refresh_token rotate_stored get_refresh_by_hash revoke_all_for_user revoke_where
  kept_by_rotate o raw new = search (basic, kept_by_issue_refresh_token) depth 16

  pub kept_by_owner_of : (o : Outside) (t : SingleUseToken) → Keeps (Of F) (owner_of o t)
  unfolding owner_of
  kept_by_owner_of o t = search (basic, kept_by_get_by_id) depth 12

  pub kept_by_log_token_failure :
      {A : Type 0} (e : Error) → Keeps (Of F) (log_token_failure {A = A} e)
  unfolding log_token_failure
  kept_by_log_token_failure email_verification_token_invalid = search (basic, kept_by_log_action)
  kept_by_log_token_failure password_reset_token_invalid = search (basic, kept_by_log_action)
  kept_by_log_token_failure refresh_token_reused = search (basic, kept_by_log_action)
  kept_by_log_token_failure refresh_token_invalid = search (basic, kept_by_log_action)
  kept_by_log_token_failure _ = Keeps-raise _

  pub kept_by_notify :
      (user_id : ℕ) (type : NotificationType) (t : Option ℕ) → Keeps (Of F) (notify user_id type t)
  kept_by_notify = Keeps-Of-notify F next

  pub kept_by_get_user : (user_id : ℕ) → Keeps (Of F) (Users.get_user user_id)
  kept_by_get_user = Keeps-Of-get_user F next

  pub kept_by_rate :
      (now : ℕ) (feed : Feed) (x : ℕ) (f t : Str) → Keeps (Of F) (convert now feed x f t)
  kept_by_rate = Keeps-Of_rate F

  pub kept_by_account : (id : ℕ) → Keeps (Of F) (Accounts.get_by_id_locked id)
  kept_by_account = Keeps-Of_account F

  pub kept_by_add :
      (o : Outside) (from_id to_id : Option ℕ) (x : Decimal) (currency : Str)
      (type : TransactionType) (why : ReferenceNote)
      → Keeps (Of F) (Accounts.add_transaction o from_id to_id x currency type why)
  kept_by_add = Keeps-Of-add F next

pub ruleset life_rules = (
  keeps_rules, elsewhere, kept_by_fresh_id, kept_by_endpoint, kept_by_catch, kept_by_log_action,
  kept_by_get_by_id, kept_by_get_by_email, kept_by_get_by_user_id, kept_by_get_current_user,
  kept_by_get_current_verified_user, kept_by_users_create, kept_by_accounts_create,
  kept_by_issue_refresh_token, kept_by_issue, kept_by_consume, kept_by_rotate, kept_by_owner_of,
  kept_by_log_token_failure, kept_by_notify, kept_by_get_user, kept_by_rate, kept_by_account,
  kept_by_add,
)

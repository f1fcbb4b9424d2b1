-- ===== src/System/People.antt =====
-- Proofs about the routes of app/modules/auth/router.py: the ledger.
use bridge_pay_backend.Common.{ℕ, Bool, List, Option}
use bridge_pay_backend.Common.Text.{Str}
use bridge_pay_backend.Errors.{
  Error, email_verification_token_invalid, password_reset_token_invalid, refresh_token_reused,
  refresh_token_invalid,
}
use bridge_pay_backend.Outside.{Outside}
use bridge_pay_backend.Schema.{User, Db, RefreshToken, SingleUseToken}
use bridge_pay_backend.Session.{modify}
use bridge_pay_backend.Session.Keeps.{Keeps, Keeps-raise}
use bridge_pay_backend.Accounts.Balance.{IsSound}
use bridge_pay_backend.Accounts.Opening
use bridge_pay_backend.Auth.{
  TokenTable, with_tokens, get_refresh_by_hash, create_refresh, get_by_hash, create_single_use,
}
use bridge_pay_backend.Auth.Sessions.{
  revoke_where, issue_refresh_token, rotate_stored, rotate_refresh_token, revoke_refresh_token,
  revoke_all_for_user,
}
use bridge_pay_backend.Auth.SingleUse.{
  issue, consume, owner_of, confirm_verification_token, request_password_reset,
  confirm_password_reset, consume_oauth_handoff_code,
}
use bridge_pay_backend.Auth.Router.{
  log_token_failure, open_user, register, verify_email, resend_verification, admit, login, refresh,
  logout, password_reset_request, password_reset_confirm, google_exchange,
}
use bridge_pay_backend.Untouched.{sound_rules, Keeps-elsewhere, Keeps-log_action}
use bridge_pay_backend.Users

pub Keeps-users_create :
    (email : Str) (hash : Option Str) (name : Str) (country google : Option Str)
    → Keeps IsSound (Users.create email hash name country google)
unfolding Users.create
Keeps-users_create email hash name country google = search (sound_rules, Keeps-elsewhere) depth 16

Keeps-create_refresh :
    (user_id : ℕ) (hash : Str) (at : ℕ) → Keeps IsSound (create_refresh user_id hash at)
unfolding create_refresh
Keeps-create_refresh user_id hash at = search (sound_rules, Keeps-elsewhere) depth 16

pub Keeps-revoke_where : (test : RefreshToken → Bool) → Keeps IsSound (revoke_where test)
unfolding revoke_where
Keeps-revoke_where test = Keeps-elsewhere _ (λ s h. h)

with_tokens-IsSound :
    (table : TokenTable) (ts : List SingleUseToken) (s : Db)
    → IsSound s
    → IsSound (with_tokens table ts s)
unfolding with_tokens
with_tokens-IsSound TokenTable.email_verification ts s h = h
with_tokens-IsSound TokenTable.password_reset ts s h = h
with_tokens-IsSound TokenTable.oauth_handoff ts s h = h

Keeps-with_tokens :
    (table : TokenTable) (f : Db → List SingleUseToken)
    → Keeps IsSound (modify (λ s. with_tokens table (f s) s))
Keeps-with_tokens table f = Keeps-elsewhere _ (λ s h. with_tokens-IsSound table (f s) s h)

Keeps-create_single_use :
    (table : TokenTable) (user_id : ℕ) (hash : Str) (at : ℕ)
    → Keeps IsSound (create_single_use table user_id hash at)
unfolding create_single_use
Keeps-create_single_use table user_id hash at = search (sound_rules, Keeps-with_tokens) depth 16

pub Keeps-consume :
    (o : Outside) (table : TokenTable) (raw : Str) → Keeps IsSound (consume o table raw)
unfolding consume get_by_hash
Keeps-consume o table raw = search (sound_rules, Keeps-with_tokens) depth 16

pub Keeps-issue :
    (o : Outside) (table : TokenTable) (raw : Str) (user_id : ℕ)
    → Keeps IsSound (issue o table raw user_id)
unfolding issue
Keeps-issue o table raw user_id = search (sound_rules, Keeps-create_single_use) depth 12

pub Keeps-issue_refresh_token :
    (o : Outside) (raw : Str) (user_id : ℕ) → Keeps IsSound (issue_refresh_token o raw user_id)
unfolding issue_refresh_token
Keeps-issue_refresh_token o raw user_id = search (sound_rules, Keeps-create_refresh) depth 12

pub Keeps-change_row : (id : ℕ) (f : User → User) → Keeps IsSound (modify (Users.change_row id f))
Keeps-change_row id f = Keeps-elsewhere _ (λ s h. h)

pub Keeps-revoke_all : (user_id : ℕ) → Keeps IsSound (revoke_all_for_user user_id)
unfolding revoke_all_for_user
Keeps-revoke_all user_id = Keeps-revoke_where _

pub Keeps-owner_of : (o : Outside) (t : SingleUseToken) → Keeps IsSound (owner_of o t)
unfolding owner_of Users.get_by_id Users.find_one
Keeps-owner_of o t = search sound_rules depth 12

pub Keeps-rotate : (o : Outside) (raw new : Str) → Keeps IsSound (rotate_refresh_token o raw new)
unfolding rotate_refresh_token rotate_stored get_refresh_by_hash
Keeps-rotate o raw new =
    search (sound_rules, Keeps-revoke_all, Keeps-revoke_where, Keeps-issue_refresh_token) depth 16

pub Keeps-log_token_failure : {A : Type 0} (e : Error) → Keeps IsSound (log_token_failure {A = A} e)
unfolding log_token_failure
Keeps-log_token_failure email_verification_token_invalid = search sound_rules
Keeps-log_token_failure password_reset_token_invalid = search sound_rules
Keeps-log_token_failure refresh_token_reused = search sound_rules
Keeps-log_token_failure refresh_token_invalid = search sound_rules
Keeps-log_token_failure _ = Keeps-raise _

pub ruleset people_rules = (
  sound_rules, Keeps-issue, Keeps-issue_refresh_token, Keeps-change_row, Keeps-revoke_all,
  Keeps-revoke_where, Keeps-owner_of, Keeps-rotate, Keeps-log_token_failure, Keeps-consume,
  Keeps-users_create, Opening.Keeps-create,
)

module _ (o : Outside) where
  pub register-IsSound :
      (raw email password name country : Str)
      → Keeps IsSound (register o raw email password name country)
  unfolding register open_user
  register-IsSound raw email password name country = search people_rules depth 16

  pub verify_email-IsSound : (token : Str) → Keeps IsSound (verify_email o token)
  unfolding verify_email confirm_verification_token
  verify_email-IsSound token = search people_rules depth 16

  pub resend_verification-IsSound :
      (subject : Option ℕ) (raw : Str) → Keeps IsSound (resend_verification o subject raw)
  unfolding resend_verification
  resend_verification-IsSound subject raw = search people_rules depth 16

  pub login-IsSound : (raw name password : Str) → Keeps IsSound (login o raw name password)
  unfolding login admit
  login-IsSound raw name password = search people_rules depth 20

  pub refresh-IsSound : (token new : Str) → Keeps IsSound (refresh o token new)
  unfolding refresh
  refresh-IsSound token new = search people_rules depth 16

  pub logout-IsSound : (token : Str) → Keeps IsSound (logout o token)
  unfolding logout revoke_refresh_token
  logout-IsSound token = search people_rules depth 16

  pub password_reset_request-IsSound :
      (raw email : Str) → Keeps IsSound (password_reset_request o raw email)
  unfolding password_reset_request request_password_reset
  password_reset_request-IsSound raw email = search people_rules depth 16

  pub password_reset_confirm-IsSound :
      (token password : Str) → Keeps IsSound (password_reset_confirm o token password)
  unfolding password_reset_confirm confirm_password_reset
  password_reset_confirm-IsSound token password = search people_rules depth 16

  pub google_exchange-IsSound : (raw code : Str) → Keeps IsSound (google_exchange o raw code)
  unfolding google_exchange consume_oauth_handoff_code
  google_exchange-IsSound raw code = search people_rules depth 16

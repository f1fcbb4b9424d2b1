-- ===== src/Auth/SingleUse.antt =====
-- app/modules/auth/service.py: tokens that work once, for e-mail verification, password reset and the OAuth
-- handoff.
use bridge_pay_backend.Common.{ℕ, ◌+◌, ◌*◌, true, ◌||◌, Option, none, some, ltb, ◌==◌}
use bridge_pay_backend.Common.Table.{update}
use bridge_pay_backend.Common.Text.{Str}
use bridge_pay_backend.Errors.{attribute_error}
use bridge_pay_backend.Outside.{Outside}
use bridge_pay_backend.Schema.{User, SingleUseToken}
use bridge_pay_backend.Session.{Action, pure, raise, raise_if, modify, option_case, ◌>>=◌, ◌>>◌}
use bridge_pay_backend.Auth.{
  TokenTable, tokens_of, with_tokens, invalid, get_by_hash, create_single_use,
}
use bridge_pay_backend.Auth.Sessions.{revoke_all_for_user}
use bridge_pay_backend.Users

-- VERIFICATION_TOKEN_EXPIRE_HOURS, RESET_TOKEN_EXPIRE_MINUTES, OAUTH_HANDOFF_CODE_EXPIRE_SECONDS
abbrev pub lifetime : TokenTable → ℕ
lifetime TokenTable.email_verification = 24 * 60 * 60
lifetime TokenTable.password_reset = 30 * 60
lifetime TokenTable.oauth_handoff = 60

unfoldable pub use_up : SingleUseToken → SingleUseToken
use_up t = record t { used = true }

module _ (o : Outside) where
  -- `issue_verification_token`, `issue_oauth_handoff_code`, and the token of a password reset
  unfoldable pub issue : TokenTable → Str → ℕ → Action Str
  issue table raw_token user_id = do
    create_single_use table user_id (o.hash_refresh_token raw_token) (o.now + lifetime table)
    pure raw_token

  -- `stored is None or stored.used or stored.expires_at < now`, and `stored.used = True`
  unfoldable pub consume : TokenTable → Str → Action SingleUseToken
  unfolding use_up
  consume table raw_token = do
    found ← get_by_hash table (o.hash_refresh_token raw_token)
    option_case found (raise (invalid table)) λ stored. do
      raise_if (stored.used || ltb stored.expires_at o.now) (invalid table)
      modify (λ s. with_tokens table (update (λ t. t.id == stored.id) use_up (tokens_of table s)) s)
      pure stored

  -- The user of a token, who is looked up by id: an attribute of None raises.
  unfoldable pub owner_of : SingleUseToken → Action User
  owner_of stored = do
    found ← Users.get_by_id stored.user_id
    option_case found (raise attribute_error) pure

  unfoldable pub confirm_verification_token : Str → Action (Unit {0})
  confirm_verification_token raw_token = do
    stored ← consume TokenTable.email_verification raw_token
    user ← owner_of stored
    modify (Users.change_row user.id (λ u. record u { is_verified = true }))

  -- The raw token, if a user has the address.
  unfoldable pub request_password_reset : Str → Str → Action (Option Str)
  request_password_reset raw_token email = do
    found ← Users.get_by_email email
    option_case found (pure none)
        λ user. do token ← issue TokenTable.password_reset raw_token user.id; pure (some token)

  unfoldable pub confirm_password_reset : Str → Str → Action (Unit {0})
  confirm_password_reset raw_token new_password = do
    stored ← consume TokenTable.password_reset raw_token
    user ← owner_of stored
    modify (
        Users.change_row user.id
          (λ u. record u { hashed_password = some (o.hash_password new_password) }))
    revoke_all_for_user user.id

  unfoldable pub consume_oauth_handoff_code : Str → Action ℕ
  consume_oauth_handoff_code raw_code = do
    stored ← consume TokenTable.oauth_handoff raw_code
    pure stored.user_id

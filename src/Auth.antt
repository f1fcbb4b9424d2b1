-- ===== src/Auth.antt =====
-- app/modules/auth/repository.py: refresh tokens, and the three tables of tokens that work once. Times are
-- seconds; a raw token is an argument of what issues it (`generate_refresh_token`).
pub mod Sessions
pub mod SingleUse
pub mod Google
pub mod Router
pub mod Rotation
pub mod Access
use bridge_pay_backend.Common.{ℕ, Bool, false, List, ◌∷◌, Option, ◌==◌, leb}
use bridge_pay_backend.Common.Table.{select, update, length}
use bridge_pay_backend.Common.Text.{Str, str_eq}
use bridge_pay_backend.Errors.{
  Error, integrity_error, email_verification_token_invalid, password_reset_token_invalid,
  oauth_handoff_code_invalid,
}
use bridge_pay_backend.Schema.{RefreshToken, SingleUseToken, Db}
use bridge_pay_backend.Session.{
  Action, pure, lift, gets, raise_if, modify, fresh_id, ◌>>=◌, ◌>>◌, scalar_one_or_none,
}

abbrev pub has_refresh_hash : Str → RefreshToken → Bool
has_refresh_hash token_hash t = str_eq t.token_hash token_hash

-- `RefreshTokenRepository.get_by_hash`
unfoldable pub get_refresh_by_hash : Str → Action (Option RefreshToken)
get_refresh_by_hash token_hash = do
  rows ← gets (λ s. select (has_refresh_hash token_hash) s.refresh_tokens)
  lift (scalar_one_or_none rows)

-- `RefreshTokenRepository.create`; `token_hash` is unique.
unfoldable pub create_refresh : ℕ → Str → ℕ → Action RefreshToken
create_refresh user_id token_hash expires_at = do
  rows ← gets (λ s. select (has_refresh_hash token_hash) s.refresh_tokens)
  raise_if (leb 1 (length rows)) integrity_error
  id ← fresh_id
  let token : RefreshToken = record {
    id = id;
    user_id = user_id;
    token_hash = token_hash;
    revoked = false;
    expires_at = expires_at;
  }
  modify (λ s. record s { refresh_tokens = token ∷ s.refresh_tokens })
  pure token

-- EmailVerificationToken, PasswordResetToken, OAuthHandoffCode
pub data TokenTable : Type 0 where
  email_verification password_reset oauth_handoff : TokenTable

unfoldable pub tokens_of : TokenTable → Db → List SingleUseToken
tokens_of TokenTable.email_verification s = s.verification_tokens
tokens_of TokenTable.password_reset s = s.reset_tokens
tokens_of TokenTable.oauth_handoff s = s.handoff_codes

unfoldable pub with_tokens : TokenTable → List SingleUseToken → Db → Db
with_tokens TokenTable.email_verification ts s = record s { verification_tokens = ts }
with_tokens TokenTable.password_reset ts s = record s { reset_tokens = ts }
with_tokens TokenTable.oauth_handoff ts s = record s { handoff_codes = ts }

-- What the service raises of a token that it does not accept.
unfoldable pub invalid : TokenTable → Error
invalid TokenTable.email_verification = email_verification_token_invalid
invalid TokenTable.password_reset = password_reset_token_invalid
invalid TokenTable.oauth_handoff = oauth_handoff_code_invalid

abbrev pub has_hash : Str → SingleUseToken → Bool
has_hash token_hash t = str_eq t.token_hash token_hash

-- `get_by_hash` of the three repositories
unfoldable pub get_by_hash : TokenTable → Str → Action (Option SingleUseToken)
get_by_hash table token_hash = do
  rows ← gets (λ s. select (has_hash token_hash) (tokens_of table s))
  lift (scalar_one_or_none rows)

-- `create` of the three repositories; the hash is unique.
unfoldable pub create_single_use : TokenTable → ℕ → Str → ℕ → Action SingleUseToken
create_single_use table user_id token_hash expires_at = do
  rows ← gets (λ s. select (has_hash token_hash) (tokens_of table s))
  raise_if (leb 1 (length rows)) integrity_error
  id ← fresh_id
  let token : SingleUseToken = record {
    id = id;
    user_id = user_id;
    token_hash = token_hash;
    used = false;
    expires_at = expires_at;
  }
  modify (λ s. with_tokens table (token ∷ tokens_of table s) s)
  pure token

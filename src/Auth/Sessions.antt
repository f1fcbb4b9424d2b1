-- ===== src/Auth/Sessions.antt =====
-- app/modules/auth/service.py: refresh tokens, their rotation, and their revocation.
use bridge_pay_backend.Common.{ℕ, ◌+◌, Bool, true, ltb, ◌==◌}
use bridge_pay_backend.Common.Table.{update}
use bridge_pay_backend.Common.Text.{Str}
use bridge_pay_backend.Errors.{refresh_token_reused, refresh_token_invalid}
use bridge_pay_backend.Outside.{Outside}
use bridge_pay_backend.Schema.{RefreshToken}
use bridge_pay_backend.Session.{Action, pure, raise, raise_if, modify, option_case, ◌>>=◌, ◌>>◌}
use bridge_pay_backend.Auth.{has_refresh_hash, get_refresh_by_hash, create_refresh}
use bridge_pay_backend.Common.{if◌then◌else◌}

unfoldable pub revoke : RefreshToken → RefreshToken
revoke t = record t { revoked = true }

-- `update(RefreshToken).where(...).values(revoked=True)`
unfoldable pub revoke_where : (RefreshToken → Bool) → Action (Unit {0})
unfolding revoke
revoke_where test = modify (λ s. record s { refresh_tokens = update test revoke s.refresh_tokens })

unfoldable pub revoke_all_for_user : ℕ → Action (Unit {0})
unfolding revoke_where
revoke_all_for_user user_id = revoke_where (λ t. t.user_id == user_id)

module _ (o : Outside) where
  unfoldable pub issue_refresh_token : Str → ℕ → Action Str
  issue_refresh_token raw_token user_id = do
    create_refresh user_id (o.hash_refresh_token raw_token) (o.now + o.refresh_token_lifetime)
    pure raw_token

  -- What `rotate_refresh_token` does with a stored token: the user's id and the new raw token.
  unfoldable pub rotate_stored : Str → RefreshToken → Action (ℕ × Str)
  unfolding revoke_where
  rotate_stored new_token stored =
      if stored.revoked
      then revoke_all_for_user stored.user_id >> raise refresh_token_reused
      else (do
        raise_if (ltb stored.expires_at o.now) refresh_token_invalid
        revoke_where (λ t. t.id == stored.id)
        new_raw_token ← issue_refresh_token new_token stored.user_id
        pure (stored.user_id, new_raw_token))

  unfoldable pub rotate_refresh_token : Str → Str → Action (ℕ × Str)
  rotate_refresh_token raw_token new_token = do
    found ← get_refresh_by_hash (o.hash_refresh_token raw_token)
    option_case found (raise refresh_token_invalid) (rotate_stored new_token)

  unfoldable pub revoke_refresh_token : Str → Action (Unit {0})
  unfolding revoke_where
  revoke_refresh_token raw_token = revoke_where (has_refresh_hash (o.hash_refresh_token raw_token))

-- ===== src/Profile/Sessions.antt =====
-- Proofs about `change_password` of app/modules/users/service.py.
use bridge_pay_backend.Common.{ℕ, ◌≡◌, none}
use bridge_pay_backend.Common.Text.{Str}
use bridge_pay_backend.Errors.{ok}
use bridge_pay_backend.Notifications.{notify}
use bridge_pay_backend.Outside.{Outside}
use bridge_pay_backend.Schema.{User, Db, NotificationType}
use bridge_pay_backend.Session.{modify, fresh_id}
use bridge_pay_backend.Session.Ends.{
  Ends, Ends-Keeps, Ends-behind, Ends-bind, Ends-raise, Ends-option_case, Ends-modify, Ends_ok,
}
use bridge_pay_backend.Session.Keeps.{Keeps, keeps_rules, Leads-modify}
use bridge_pay_backend.Auth.Rotation.{AllRevoked, update-AllRevoked}
use bridge_pay_backend.Auth.Sessions.{revoke_where, revoke_all_for_user}
use bridge_pay_backend.Profile.{change_password}

abbrev Revoked : ℕ → Db → Type 0
Revoked user_id s = AllRevoked user_id s.refresh_tokens

Keeps-fresh_id : (id : ℕ) → Keeps (Revoked id) fresh_id
unfolding fresh_id
Keeps-fresh_id id = record { at = λ s h. h }

Keeps-elsewhere :
    (id : ℕ) (f : Db → Db)
    → ((s : Db) → Revoked id s → Revoked id (f s))
    → Keeps (Revoked id) (modify f)
Keeps-elsewhere id f h = Leads-modify f h

Keeps-notify : (id : ℕ) → Keeps (Revoked id) (notify id NotificationType.security_alert none)
unfolding notify
Keeps-notify id = search (keeps_rules, Keeps-fresh_id, Keeps-elsewhere) depth 10

module _ (o : Outside) (user : User) (current new : Str) where
  ends : Ends (λ s. Unit {0}) (Revoked user.id) (change_password o user current new)
  unfolding change_password revoke_all_for_user revoke_where
  ends = Ends-option_case user.hashed_password _ _ (Ends-raise _) (λ hashed.
      Ends-behind _ _ (search keeps_rules) (λ right.
        Ends-behind _ _ (record { at = λ s h. tt })
          (λ changed.
            Ends-bind _ _ (Ends-modify _ (λ s h. update-AllRevoked user.id s.refresh_tokens))
              (λ u. Ends-Keeps _ (λ s h. h) (Keeps-notify user.id)))))

  -- A change of the password that goes through ends every session of the user.
  pub change_password_revokes :
      (s s' : Db)
      → change_password o user current new s ≡ (ok tt, s')
      → AllRevoked user.id s'.refresh_tokens
  change_password_revokes s s' h = Ends_ok (change_password o user current new) ends s s' tt tt h

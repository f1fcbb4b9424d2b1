-- ===== src/Audit.antt =====
-- app/modules/audit/service.py: who did what, in the session of the action itself. The request's IP
-- address and the free-text detail are left out.
use bridge_pay_backend.Common.{ℕ, Option, ◌∷◌}
use bridge_pay_backend.Common.Text.{Str}
use bridge_pay_backend.Session.{Action, modify}

-- `log_action`
unfoldable pub log_action : Str → Option ℕ → Action (Unit {0})
log_action action user_id =
    modify
      (λ s. record s { audit_logs = record { user_id = user_id; action = action } ∷ s.audit_logs })

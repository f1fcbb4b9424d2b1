-- ===== src/Admin/Guarded.antt =====
-- Proofs about app/modules/admin/router.py: who may read.
use bridge_pay_backend.Common.{
  ℕ, ◌≡◌, ◌⊎◌, refl, true, List, [], ◌∷◌, Option, none, some, inl, inr, Bool-cases,
}
use bridge_pay_backend.Common.Table.{select}
use bridge_pay_backend.Common.Text.{Str}
use bridge_pay_backend.Core.Dependencies.{get_current_user, get_current_admin_user}
use bridge_pay_backend.Errors.{
  Error, ok, err, credentials_rejected, not_admin, multiple_results_found,
}
use bridge_pay_backend.Schema.{User, Transaction, AuditLog, Db}
use bridge_pay_backend.Session.{◌>>=◌, scalar_one_or_none}
use bridge_pay_backend.Admin.{list_all_transactions, list_audit_logs}
use bridge_pay_backend.Users

-- The token names the one user of an id, who is active and an administrator.
abbrev pub NamesAdmin : Option ℕ → List User → Type 0
NamesAdmin subject users =
    (id : ℕ) × (u : User) × (subject ≡ some id)
    × (select (Users.has_id id) users ≡ u ∷ [])
    × (u.is_active ≡ true)
    × (u.is_admin ≡ true)

abbrev Rejected : Option ℕ → Db → Type 0
Rejected subject s = (e : Error) × (get_current_admin_user subject s ≡ (err e, s))

admin-cases : (subject : Option ℕ) (s : Db) → NamesAdmin subject s.users ⊎ Rejected subject s
unfolding get_current_admin_user get_current_user Users.get_by_id Users.find_one scalar_one_or_none
    ◌>>=◌
admin-cases none s = inr (credentials_rejected, refl)
admin-cases (some id) s = of_rows (select (Users.has_id id) s.users) refl
  where
    of_rows :
        (rows : List User)
        → select (Users.has_id id) s.users ≡ rows
        → NamesAdmin (some id) s.users ⊎ Rejected (some id) s
    of_rows [] e = inr (credentials_rejected, rw e refl)
    of_rows (u ∷ v ∷ rows) e = inr (multiple_results_found, rw e refl)
    of_rows (u ∷ []) e = elim (Bool-cases u.is_active) [
      | inl active ↦ elim (Bool-cases u.is_admin) [
        | inl admin ↦ inl (id, u, refl, e, active, admin)
        | inr plain ↦ inr (not_admin, rw e (rw (active, plain) refl))
      ]
      | inr gone ↦ inr (credentials_rejected, rw e (rw gone refl))
    ]

-- Who gets an answer from one of the administrators' routes, of all transactions or of the audit log, has a token
-- that names an active user who is an administrator.
pub admin_routes_checked :
    (subject : Option ℕ) (page page_size : ℕ) (email action : Option Str) (s s' : Db)
    → ((r : List Transaction × ℕ) × (list_all_transactions subject page page_size email s
          ≡ (ok r, s')))
      ⊎ ((r : List AuditLog × ℕ) × (list_audit_logs subject page page_size action s ≡ (ok r, s')))
    → NamesAdmin subject s.users
unfolding list_all_transactions list_audit_logs ◌>>=◌
admin_routes_checked subject page page_size email action s s' answered =
    elim (admin-cases subject s) [
      | inl admin ↦ admin
      | inr (e, rejected) ↦ of_answer e rejected answered
    ]
  where
    of_answer :
        (e : Error)
        → get_current_admin_user subject s ≡ (err e, s)
        → ((r : List Transaction × ℕ) × (list_all_transactions subject page page_size email s
              ≡ (ok r, s')))
          ⊎ ((r : List AuditLog × ℕ) × (list_audit_logs subject page page_size action s
                ≡ (ok r, s')))
        → NamesAdmin subject s.users
    of_answer e rejected (inl (r, h)) = let f = rw rejected at h in cc
    of_answer e rejected (inr (r, h)) = let f = rw rejected at h in cc

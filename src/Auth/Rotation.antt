-- ===== src/Auth/Rotation.antt =====
-- Proofs about the rotation of refresh tokens in app/modules/auth/service.py.
use bridge_pay_backend.Common.{
  ℕ, ◌≡◌, ◌∙◌, refl, sym, ap, subst, true, false, List, [], ◌∷◌, ◌==◌, ==_refl, leb, ltb,
  Bool-cases, inl, inr, if◌then◌else◌,
}
use bridge_pay_backend.Common.Table.{select, update, length, All, select-update}
use bridge_pay_backend.Common.Text.{Str, str_eq, eq_of_str_eq}
use bridge_pay_backend.Errors.{ok, err, refresh_token_reused}
use bridge_pay_backend.Outside.{Outside}
use bridge_pay_backend.Schema.{RefreshToken, Db}
use bridge_pay_backend.Session.{pure, ◌>>=◌, scalar_one_or_none}
use bridge_pay_backend.Auth.{has_refresh_hash, get_refresh_by_hash, create_refresh}
use bridge_pay_backend.Auth.Sessions.{
  revoke, revoke_where, revoke_all_for_user, issue_refresh_token, rotate_stored,
  rotate_refresh_token,
}

-- Every refresh token of the user is revoked.
abbrev pub AllRevoked : ℕ → List RefreshToken → Type 0
AllRevoked user_id ts = All (λ t. (t.user_id == user_id) ≡ true → t.revoked ≡ true) ts

pub update-AllRevoked :
    (user_id : ℕ) (ts : List RefreshToken)
    → AllRevoked user_id (update (λ t. t.user_id == user_id) revoke ts)
unfolding update revoke
update-AllRevoked user_id [] = tt
update-AllRevoked user_id (t ∷ ts) = (first, update-AllRevoked user_id ts)
  where
    first :
        ((if t.user_id == user_id then revoke t else t).user_id == user_id) ≡ true
        → (if t.user_id == user_id then revoke t else t).revoked ≡ true
    first = elim (Bool-cases (t.user_id == user_id)) [
      | inl e ↦ rw e (λ h. refl)
      | inr e ↦ rw e (λ h. let f = sym e ∙ h in cc)
    ]

module _ (o : Outside) (raw new : Str) (s : Db) where
  -- A refresh token that was revoked before is refused, and every session of its user ends.
  pub rotate_refresh_token_reused :
      (t : RefreshToken)
      → select (has_refresh_hash (o.hash_refresh_token raw)) s.refresh_tokens ≡ t ∷ []
      → t.revoked ≡ true
      → ((rotate_refresh_token o raw new s).0 ≡ err refresh_token_reused)
        × AllRevoked t.user_id (rotate_refresh_token o raw new s).1.refresh_tokens
  unfolding rotate_refresh_token rotate_stored get_refresh_by_hash revoke_all_for_user ◌>>=◌
      scalar_one_or_none
  rotate_refresh_token_reused t found r =
      rw found (rw r (refl, update-AllRevoked t.user_id s.refresh_tokens))

-- A hash that no row has is not the hash of one that is there.
other_hash :
    (h h' : Str) (a : RefreshToken) (ts : List RefreshToken)
    → select (has_refresh_hash h) ts ≡ a ∷ []
    → leb 1 (length (select (has_refresh_hash h') ts)) ≡ false
    → str_eq h' h ≡ false
other_hash h h' a ts e free = elim (Bool-cases (str_eq h' h)) [
  | inl same ↦ let f = rw (eq_of_str_eq h' h same) at free in let g = rw e at f in cc
  | inr other ↦ other
]

module _ (o : Outside) (raw new : Str) (user_id : ℕ) (given : Str) where
  -- Issuing a token leaves the rows of another hash alone.
  issued_stays :
      (uid : ℕ) (a : RefreshToken) (s s' : Db) (r : ℕ × Str)
      → select (has_refresh_hash (o.hash_refresh_token raw)) s.refresh_tokens ≡ a ∷ []
      → (issue_refresh_token o new uid >>= λ token. pure (uid, token)) s ≡ (ok r, s')
      → (select (has_refresh_hash (o.hash_refresh_token raw)) s'.refresh_tokens ≡ a ∷ [])
        × (r.0 ≡ uid)
  unfolding issue_refresh_token create_refresh ◌>>=◌ select
  issued_stays uid a s s' r e h =
      elim (Bool-cases
        (leb 1 (length (select (has_refresh_hash (o.hash_refresh_token new)) s.refresh_tokens)))) [
          | inl taken ↦ let f = rw taken at h in cc
          | inr free ↦
              let f = rw free at h in
              let other =
                other_hash (o.hash_refresh_token raw) (o.hash_refresh_token new) a s.refresh_tokens
                  e free in
              (
                subst
                    (λ (z : Db).
                      select (has_refresh_hash (o.hash_refresh_token raw)) z.refresh_tokens
                      ≡ a ∷ [])
                    (ap (λ p. p.1) f) (rw other e),
                cc,
              )
        ]

  stored_revoked :
      (t : RefreshToken) (s s' : Db)
      → select (has_refresh_hash (o.hash_refresh_token raw)) s.refresh_tokens ≡ t ∷ []
      → rotate_refresh_token o raw new s ≡ (ok (user_id, given), s')
      → (select (has_refresh_hash (o.hash_refresh_token raw)) s'.refresh_tokens ≡ revoke t ∷ [])
        × (user_id ≡ t.user_id)
  unfolding rotate_refresh_token rotate_stored get_refresh_by_hash revoke_where issue_refresh_token
      create_refresh ◌>>=◌ scalar_one_or_none revoke_all_for_user revoke update
  stored_revoked t s s' e h = elim (Bool-cases t.revoked) [
    | inl r ↦ let f = rw (e, r) at h in cc
    | inr live ↦ elim (Bool-cases (ltb t.expires_at o.now)) [
      | inl late ↦ let f = rw (e, live, late) at h in cc
      | inr soon ↦
          let row =
            select-update (has_refresh_hash (o.hash_refresh_token raw)) (λ a. a.id == t.id) revoke
              (λ a. refl) s.refresh_tokens
            ∙ rw e (rw (==_refl t.id) refl) in
          issued_stays t.user_id (revoke t) _ s' (user_id, given) row (rw (e, live, soon) at h)
    ]
  ]

  -- A refresh token works once: where a rotation has answered, the same token again is refused as reused, and
  -- every session of its user ends, the one that the rotation began included.
  pub rotate_refresh_token_once :
      (again : Str) (s s' : Db)
      → rotate_refresh_token o raw new s ≡ (ok (user_id, given), s')
      → ((rotate_refresh_token o raw again s').0 ≡ err refresh_token_reused)
        × AllRevoked user_id (rotate_refresh_token o raw again s').1.refresh_tokens
  unfolding rotate_refresh_token get_refresh_by_hash ◌>>=◌ scalar_one_or_none revoke
  rotate_refresh_token_once again s s' h =
      of_rows (select (has_refresh_hash (o.hash_refresh_token raw)) s.refresh_tokens) refl
    where
      of_rows :
          (rows : List RefreshToken)
          → select (has_refresh_hash (o.hash_refresh_token raw)) s.refresh_tokens ≡ rows
          → ((rotate_refresh_token o raw again s').0 ≡ err refresh_token_reused)
            × AllRevoked user_id (rotate_refresh_token o raw again s').1.refresh_tokens
      of_rows [] e = let f = rw e at h in cc
      of_rows (t ∷ []) e =
          let (row, owner) = stored_revoked t s s' e h in
          rw owner (rotate_refresh_token_reused o raw again s' (revoke t) row refl)
      of_rows (t ∷ u ∷ rows) e = let f = rw e at h in cc

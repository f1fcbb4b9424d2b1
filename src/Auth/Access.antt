-- ===== src/Auth/Access.antt =====
-- Proofs about login and single-use tokens (app/modules/auth).
use bridge_pay_backend.Common.{
  ℕ, ◌≡◌, ◌∙◌, refl, subst, Bool, true, false, ◌||◌, List, [], ◌∷◌, Option, none, some, ◌==◌,
  ==_refl, ltb, leb, Bool-cases, inl, inr,
}
use bridge_pay_backend.Common.Table.{select, update, length, select-update}
use bridge_pay_backend.Common.Text.{Str}
use bridge_pay_backend.Errors.{ok, err}
use bridge_pay_backend.Outside.{Outside}
use bridge_pay_backend.Schema.{User, SingleUseToken, Db}
use bridge_pay_backend.Session.{◌>>=◌, endpoint, close, catch, recover, scalar_one_or_none}
use bridge_pay_backend.Auth.{
  TokenTable, tokens_of, with_tokens, invalid, has_hash, get_by_hash, has_refresh_hash,
  create_refresh,
}
use bridge_pay_backend.Auth.SingleUse.{use_up, consume}
use bridge_pay_backend.Auth.Router.{admit, login}
use bridge_pay_backend.Auth.Sessions.{issue_refresh_token}
use bridge_pay_backend.Audit.{log_action}
use bridge_pay_backend.Users

tokens_of-with_tokens :
    (table : TokenTable) (ts : List SingleUseToken) (s : Db)
    → tokens_of table (with_tokens table ts s) ≡ ts
unfolding tokens_of with_tokens
tokens_of-with_tokens TokenTable.email_verification ts s = refl
tokens_of-with_tokens TokenTable.password_reset ts s = refl
tokens_of-with_tokens TokenTable.oauth_handoff ts s = refl

module _ (o : Outside) (table : TokenTable) (raw : Str) where
  -- A used token is refused.
  used_refused :
      (t : SingleUseToken) (s : Db)
      → select (has_hash (o.hash_refresh_token raw)) (tokens_of table s) ≡ use_up t ∷ []
      → consume o table raw s ≡ (err (invalid table), s)
  unfolding consume get_by_hash ◌>>=◌ scalar_one_or_none
  used_refused t s found = rw found refl

  -- The table behind a use.
  abbrev spent : SingleUseToken → Db → Db
  spent a s = with_tokens table (update (λ t. t.id == a.id) use_up (tokens_of table s)) s

  spent_row :
      (a : SingleUseToken) (s : Db)
      → select (has_hash (o.hash_refresh_token raw)) (tokens_of table s) ≡ a ∷ []
      → select (has_hash (o.hash_refresh_token raw)) (tokens_of table (spent a s)) ≡ use_up a ∷ []
  unfolding use_up update
  spent_row a s e =
      rw (tokens_of-with_tokens table (update (λ t. t.id == a.id) use_up (tokens_of table s)) s) (
        select-update (has_hash (o.hash_refresh_token raw)) (λ t. t.id == a.id) use_up (λ t. refl)
          (tokens_of table s)
        ∙ rw e (rw (==_refl a.id) refl))

  -- A verification token, a reset token and a handoff code work once: behind a successful use the same one is
  -- refused, and nothing changes.
  pub consume_once :
      (t : SingleUseToken) (s s' : Db)
      → consume o table raw s ≡ (ok t, s')
      → consume o table raw s' ≡ (err (invalid table), s')
  unfolding consume get_by_hash ◌>>=◌ scalar_one_or_none
  consume_once t s s' h =
      of_rows (select (has_hash (o.hash_refresh_token raw)) (tokens_of table s)) refl
    where
      of_rows :
          (rows : List SingleUseToken)
          → select (has_hash (o.hash_refresh_token raw)) (tokens_of table s) ≡ rows
          → consume o table raw s' ≡ (err (invalid table), s')
      of_rows [] e = let f = rw e at h in cc
      of_rows (a ∷ b ∷ rows) e = let f = rw e at h in cc
      of_rows (a ∷ []) e = elim (Bool-cases (a.used || ltb a.expires_at o.now)) [
        | inl refused ↦ let f = rw (e, refused) at h in cc
        | inr fresh ↦
            let used : consume o table raw s ≡ (ok a, spent a s) = rw (e, fresh) refl in
            let behind : spent a s ≡ s' = cc in
            subst (λ z. consume o table raw z ≡ (err (invalid table), z)) behind
              (used_refused a (spent a s) (spent_row a s e))
      ]

module _ (o : Outside) where
  -- Who logs in has given the password of the one user of the address.
  pub login_checked :
      (raw username password : Str) (tokens : ℕ × Str) (s s' : Db)
      → login o raw username password s ≡ (ok tokens, s')
      → (u : User) × (select (Users.has_email username) s.users ≡ u ∷ [])
        × (tokens.0 ≡ u.id)
        × ((hashed : Str) × (u.hashed_password ≡ some hashed)
            × (o.verify_password password hashed ≡ true))
  unfolding login admit Users.get_by_email Users.find_one endpoint close catch recover
      scalar_one_or_none ◌>>=◌ log_action issue_refresh_token create_refresh
  login_checked raw username password tokens s s' h =
      of_rows (select (Users.has_email username) s.users) refl
    where
      of_rows :
          (rows : List User)
          → select (Users.has_email username) s.users ≡ rows
          → (u : User) × (select (Users.has_email username) s.users ≡ u ∷ [])
            × (tokens.0 ≡ u.id)
            × ((hashed : Str) × (u.hashed_password ≡ some hashed)
                × (o.verify_password password hashed ≡ true))
      of_rows [] e = let f = rw e at h in cc
      of_rows (a ∷ b ∷ rows) e = let f = rw e at h in cc
      of_rows (a ∷ []) e = of_hash a.hashed_password refl
        where
          of_token :
              (hashed : Str)
              → a.hashed_password ≡ some hashed
              → o.verify_password password hashed ≡ true
              → (taken : Bool)
              → leb 1
                  (length (select (has_refresh_hash (o.hash_refresh_token raw)) s.refresh_tokens))
                ≡ taken
              → tokens.0 ≡ a.id
          of_token hashed e' right true c = let f = rw (e, e', right, c) at h in cc
          of_token hashed e' right false c = let f = rw (e, e', right, c) at h in cc

          of_hash :
              (hash : Option Str)
              → a.hashed_password ≡ hash
              → (u : User) × (select (Users.has_email username) s.users ≡ u ∷ [])
                × (tokens.0 ≡ u.id)
                × ((hashed : Str) × (u.hashed_password ≡ some hashed)
                    × (o.verify_password password hashed ≡ true))
          of_hash none e' = let f = rw (e, e') at h in cc
          of_hash (some hashed) e' = elim (Bool-cases (o.verify_password password hashed)) [
            | inl right ↦ (
              a,
              e,
              of_token hashed e' right
                  (leb 1 (
                    length (select (has_refresh_hash (o.hash_refresh_token raw)) s.refresh_tokens)))
                  refl,
              (hashed, e', right),
            )
            | inr wrong ↦ let f = rw (e, e', wrong) at h in cc
          ]

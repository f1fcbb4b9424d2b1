-- ===== src/Core/Security.antt =====
-- app/core/security.py: access tokens. What `jose.jwt` makes of a key, an algorithm and claims is a parameter.
use bridge_pay_backend.Common.{
  ℕ, suc, ◌+◌, ◌*◌, ◌≤◌, ◌<◌, ◌≡◌, ap, ◌∙◌, Option, none, some, List, [], ◌∷◌, leb, if◌then◌else◌,
  Bool-cases, inl, inr, arith,
}
use bridge_pay_backend.Common.Text.{Str}
use bridge_pay_backend.Core.Settings.{Settings}

-- What `create_access_token` signs; `exp` in seconds.
pub record Claims : Type 0 where
  pub sub : Option Str
  pub exp : ℕ

pub record Jwt : Type 0 where
  -- `jwt.encode(claims, key, algorithm=...)`
  pub encode : Claims → Str → Str → Str
  -- `jwt.decode(token, key, algorithms=[...])` at a time; none is a JWTError.
  pub decode : ℕ → Str → Str → List Str → Option Claims
  -- `uuid.UUID(text)`; none is a ValueError.
  pub uuid : Str → Option ℕ

-- A token of a key and an algorithm is read under them until it expires.
pub record IsSigned (jwt : Jwt) : Type 0 where
  pub read_in_time :
      (now : ℕ) (c : Claims) (key algorithm : Str)
      → now ≤ c.exp
      → jwt.decode now (jwt.encode c key algorithm) key (algorithm ∷ []) ≡ some c
  pub expired :
      (now : ℕ) (c : Claims) (key algorithm : Str)
      → c.exp < now
      → jwt.decode now (jwt.encode c key algorithm) key (algorithm ∷ []) ≡ none

-- `expires_delta or timedelta(minutes=settings.ACCESS_TOKEN_EXPIRE_MINUTES)`: no time at all is no value.
unfoldable pub lifetime : Settings → Option ℕ → ℕ
lifetime settings (some (suc n)) = suc n
lifetime settings _ = settings.access_token_expire_minutes * 60

abbrev sub_of : Option Claims → Option Str
sub_of none = none
sub_of (some payload) = payload.sub

module _ (jwt : Jwt) (settings : Settings) where
  unfoldable pub create_access_token : ℕ → Str → Option ℕ → Str
  create_access_token now subject expires_delta =
      jwt.encode (record { sub = some subject; exp = now + lifetime settings expires_delta })
        settings.jwt_secret_key settings.jwt_algorithm

  unfoldable pub decode_access_token : ℕ → Str → Option Str
  decode_access_token now token =
      sub_of (jwt.decode now token settings.jwt_secret_key (settings.jwt_algorithm ∷ []))

  abbrev uuid_of : Option Str → Option ℕ
  uuid_of none = none
  uuid_of (some user_id) = jwt.uuid user_id

  -- What `get_current_user` makes of the bearer token before it asks the database: the `subject` of the
  -- routes.
  unfoldable pub bearer : ℕ → Str → Option ℕ
  bearer now token = uuid_of (decode_access_token now token)

  -- The access token of a user's id, as `login`, `refresh` and `google_exchange` make it, names that user
  -- until ACCESS_TOKEN_EXPIRE_MINUTES have passed and nobody later, where `uuid.UUID` reads what `str` of
  -- that id writes.
  pub bearer-create_access_token :
      (id_text : ℕ → Str) (id now later : ℕ)
      → IsSigned jwt
      → jwt.uuid (id_text id) ≡ some id
      → bearer later (create_access_token now (id_text id) none)
        ≡ (if leb later (now + settings.access_token_expire_minutes * 60) then some id else none)
  unfolding create_access_token decode_access_token bearer lifetime
  bearer-create_access_token id_text id now later signed reads =
      elim (Bool-cases (leb later (now + settings.access_token_expire_minutes * 60))) [
        | inl e ↦
            rw e (
              ap (λ p. uuid_of (sub_of p)) (signed.read_in_time later _ _ _ (ground arith)) ∙ reads)
        | inr e ↦ rw e (ap (λ p. uuid_of (sub_of p)) (signed.expired later _ _ _ (ground arith)))
      ]

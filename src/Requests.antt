-- ===== src/Requests.antt =====
-- app/modules/*/schemas.py: what a request's body must be before a route sees it. The fields' limits are
-- data; the check of a value against them is pydantic's, a parameter, and `KeepsLimits` is what its
-- documentation says of them. A body that is refused is a ValidationError, which is a ValueError.
pub mod Money
pub mod People
pub mod Accepted
use bridge_pay_backend.Common.{
  ℕ, ◌*◌, ◌^◌, ◌<◌, ◌≡◌, Bool, ◌&&◌, Option, none, some, leb, if◌then◌else◌,
}
use bridge_pay_backend.Common.Text.{Str, length}
use bridge_pay_backend.Errors.{Result, ok, err, value_error}

-- `Field(min_length=..., max_length=...)`
pub record TextField : Type 0 where
  pub min_length : ℕ
  pub max_length : ℕ

-- `Field(gt=..., max_digits=..., decimal_places=...)`
pub record DecimalField : Type 0 where
  pub gt : ℕ
  pub max_digits : ℕ
  pub decimal_places : ℕ

pub record Pydantic : Type 0 where
  pub is_text : TextField → Str → Bool
  -- The number that a text is, in units of 10^-decimal_places, where it is one and meets the field.
  pub decimal : DecimalField → Str → Option ℕ
  -- `EmailStr`: the normalized address.
  pub email : Str → Option Str

-- There are at most `max_digits - decimal_places` digits before the point.
pub record KeepsLimits (p : Pydantic) : Type 0 where
  pub text_length :
      (f : TextField) (s : Str)
      → p.is_text f s ≡ (leb f.min_length (length s) && leb (length s) f.max_length)
  pub above :
      (f : DecimalField) (s : Str) (n : ℕ)
      → p.decimal f s ≡ some n
      → f.gt * 10 ^ f.decimal_places < n
  pub below : (f : DecimalField) (s : Str) (n : ℕ) → p.decimal f s ≡ some n → n < 10 ^ f.max_digits

abbrev or_refused : {A : Type 0} → Option A → Result A
or_refused none = err value_error
or_refused (some a) = ok a

module _ (p : Pydantic) where
  unfoldable pub check_text : TextField → Str → Result Str
  check_text f s = if p.is_text f s then ok s else err value_error

  -- A field that may be None.
  unfoldable pub check_optional : TextField → Option Str → Result (Option Str)
  check_optional f none = ok none
  check_optional f (some s) = if p.is_text f s then ok (some s) else err value_error

  unfoldable pub check_decimal : DecimalField → Str → Result ℕ
  check_decimal f s = or_refused (p.decimal f s)

  unfoldable pub check_email : Str → Result Str
  check_email s = or_refused (p.email s)

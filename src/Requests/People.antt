-- ===== src/Requests/People.antt =====
-- app/modules/users/schemas.py and auth/schemas.py: registration, profile and passwords; and the list of
-- countries that users/router.py gives to anyone.
use bridge_pay_backend.Common.{List, Option, none, some, if◌then◌else◌}
use bridge_pay_backend.Common.Text.{Str, upper, contains}
use bridge_pay_backend.Core.Countries.{countries, valid_country_codes}
use bridge_pay_backend.Core.Countries.Row.{Country}
use bridge_pay_backend.Errors.{Result, ok, err, ◌>>=◌, value_error}
use bridge_pay_backend.Requests.{TextField, Pydantic, check_text, check_optional, check_email}
use bridge_pay_backend.Requests.Money.{country_field}

abbrev pub password_field : TextField
password_field = record { min_length = 8; max_length = 128 }

abbrev pub name_field : TextField
name_field = record { min_length = 1; max_length = 255 }

pub record UserCreate : Type 0 where
  pub email : Str
  pub password : Str
  pub full_name : Str
  pub country : Str

pub record UpdateProfileRequest : Type 0 where
  pub full_name : Option Str
  pub email : Option Str
  pub country : Option Str

pub record ChangePasswordRequest : Type 0 where
  pub current_password : Str
  pub new_password : Str

pub record PasswordResetConfirm : Type 0 where
  pub token : Str
  pub new_password : Str

-- `validate_country`
unfoldable pub validate_country : Str → Result Str
validate_country v =
    if contains (upper v) valid_country_codes then ok (upper v) else err value_error

unfoldable pub validate_optional_country : Option Str → Result (Option Str)
unfolding validate_country
validate_optional_country none = ok none
validate_optional_country (some v) = validate_country v >>= λ c. ok (some c)

module _ (p : Pydantic) where
  unfoldable pub user_create : Str → Str → Str → Str → Result UserCreate
  user_create email password full_name country = do
    address ← check_email p email
    secret ← check_text p password_field password
    name ← check_text p name_field full_name
    letters ← check_text p country_field country
    code ← validate_country letters
    ok (record { email = address; password = secret; full_name = name; country = code })

  abbrev check_optional_email : Option Str → Result (Option Str)
  check_optional_email none = ok none
  check_optional_email (some email) = check_email p email >>= λ address. ok (some address)

  unfoldable pub update_profile_request :
      Option Str → Option Str → Option Str → Result UpdateProfileRequest
  update_profile_request full_name email country = do
    name ← check_optional p name_field full_name
    address ← check_optional_email email
    letters ← check_optional p country_field country
    code ← validate_optional_country letters
    ok (record { full_name = name; email = address; country = code })

  unfoldable pub change_password_request : Str → Str → Result ChangePasswordRequest
  change_password_request current_password new_password = do
    secret ← check_text p password_field new_password
    ok (record { current_password = current_password; new_password = secret })

  unfoldable pub password_reset_confirm_schema : Str → Str → Result PasswordResetConfirm
  password_reset_confirm_schema token new_password = do
    secret ← check_text p password_field new_password
    ok (record { token = token; new_password = secret })

-- `list_countries`
unfoldable pub list_countries : List Country
list_countries = countries

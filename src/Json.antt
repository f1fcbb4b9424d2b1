-- ===== src/Json.antt =====
-- The values that `json.loads` gives, as far as the callback handlers look at them: `d.get(k, default)`,
-- truth tests, and `==` with an integer or a text. A number is an integer; an object has no key twice.
use bridge_pay_backend.Common.{ℕ, Bool, true, false, Option, none, some, ◌==◌, if◌then◌else◌, []}
use bridge_pay_backend.Common.Int.{ℤ, pos, negsuc}
use bridge_pay_backend.Common.Text.{Str, codes, str_eq, too_long}
use bridge_pay_backend.Errors.{Result, ok, err, attribute_error, key_error, data_error}

mutual
  pub data Json : Type 0 where
    null : Json
    bool : Bool → Json
    num : ℤ → Json
    str : Str → Json
    arr : Items → Json
    obj : Fields → Json

  pub data Items : Type 0 where
    nil : Items
    cons : Json → Items → Items

  pub data Fields : Type 0 where
    end : Fields
    field : Str → Json → Fields → Fields

unfoldable pub field_or : Str → Fields → Json → Json
field_or k end d = d
field_or k (field j v fs) d = if str_eq j k then v else field_or k fs d

-- `v.get(k, default)`: only a dict has the method.
unfoldable pub get_or : Json → Str → Json → Result Json
get_or (obj fs) k d = ok (field_or k fs d)
get_or _ k d = err attribute_error

unfoldable pub field_of : Str → Fields → Result Json
field_of k end = err key_error
field_of k (field j v fs) = if str_eq j k then ok v else field_of k fs

-- `v[key]`, of a dict; what is none has no such key.
unfoldable pub get_item : Json → Str → Result Json
unfolding field_of
get_item (obj fs) k = field_of k fs
get_item _ k = err key_error

-- `if v:`
unfoldable pub is_truthy : Json → Bool
is_truthy null = false
is_truthy (bool b) = b
is_truthy (num (pos n)) = if n == 0 then false else true
is_truthy (num (negsuc n)) = true
is_truthy (str []) = false
is_truthy (str _) = true
is_truthy (arr nil) = false
is_truthy (arr _) = true
is_truthy (obj end) = false
is_truthy (obj _) = true

-- `v == 0`: False is 0 as well.
unfoldable pub is_zero : Json → Bool
is_zero (num (pos n)) = n == 0
is_zero (bool false) = true
is_zero _ = false

-- `v == s`
unfoldable pub is_str : Json → Str → Bool
is_str (str t) s = str_eq t s
is_str _ s = false

-- A value bound to a text column or parameter: the driver refuses what is no text.
unfoldable pub as_text : Json → Result Str
as_text (str s) = ok s
as_text _ = err data_error

-- A nullable text column of a limit: PostgreSQL refuses what is longer.
unfoldable pub as_nullable_text : ℕ → Json → Result (Option Str)
as_nullable_text limit null = ok none
as_nullable_text limit (str s) = if too_long limit s then err data_error else ok (some s)
as_nullable_text limit _ = err data_error

-- f"{status_code or 'unknown'}", where `repr` is the text of a value
unfoldable pub or_unknown : (Json → Str) → Json → Str
or_unknown repr v = if is_truthy v then repr v else codes "unknown"

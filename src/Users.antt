-- ===== src/Users.antt =====
-- app/modules/users/repository.py
use bridge_pay_backend.Common.{ℕ, Bool, true, false, ◌∷◌, Option, none, some, ◌==◌, leb}
use bridge_pay_backend.Common.Table.{select, update, length}
use bridge_pay_backend.Common.Text.{Str, str_eq, is_text}
use bridge_pay_backend.Errors.{integrity_error}
use bridge_pay_backend.Schema.{User, Db}
use bridge_pay_backend.Session.{
  Action, pure, lift, gets, raise_if, modify, fresh_id, ◌>>=◌, ◌>>◌, scalar_one, scalar_one_or_none,
}

abbrev pub has_id : ℕ → User → Bool
has_id id u = u.id == id

abbrev pub has_email : Str → User → Bool
has_email email u = str_eq u.email email

abbrev pub has_google_id : Str → User → Bool
has_google_id google_id u = is_text u.google_id google_id

-- NULL shares nothing with NULL.
abbrev pub shares_google_id : Option Str → User → Bool
shares_google_id none u = false
shares_google_id (some google_id) u = has_google_id google_id u

unfoldable pub find_one : (User → Bool) → Action (Option User)
find_one test = do rows ← gets (λ s. select test s.users); lift (scalar_one_or_none rows)

-- `UserRepository.get_by_id`
unfoldable pub get_by_id : ℕ → Action (Option User)
unfolding find_one
get_by_id user_id = find_one (has_id user_id)

-- `UserRepository.get_by_email`
unfoldable pub get_by_email : Str → Action (Option User)
unfolding find_one
get_by_email email = find_one (has_email email)

-- `UserRepository.get_by_google_id`
unfoldable pub get_by_google_id : Str → Action (Option User)
unfolding find_one
get_by_google_id google_id = find_one (has_google_id google_id)

-- `_get_user` of the deposits and payouts services: `scalar_one`.
unfoldable pub get_user : ℕ → Action User
get_user user_id = do rows ← gets (λ s. select (has_id user_id) s.users); lift (scalar_one rows)

-- `UserRepository.create`; `email` is unique, and so is `google_id` where it is given.
unfoldable pub create : Str → Option Str → Str → Option Str → Option Str → Action User
create email hashed_password full_name country google_id = do
  same_email ← gets (λ s. select (has_email email) s.users)
  raise_if (leb 1 (length same_email)) integrity_error
  same_google_id ← gets (λ s. select (shares_google_id google_id) s.users)
  raise_if (leb 1 (length same_google_id)) integrity_error
  id ← fresh_id
  let user : User = record {
    id = id;
    email = email;
    hashed_password = hashed_password;
    google_id = google_id;
    full_name = full_name;
    is_active = true;
    is_admin = false;
    is_verified = false;
    country = country;
    stripe_customer_id = none;
  }
  modify (λ s. record s { users = user ∷ s.users })
  pure user

-- A changed User object is its row.
abbrev pub change_row : ℕ → (User → User) → Db → Db
change_row id f s = record s { users = update (has_id id) f s.users }

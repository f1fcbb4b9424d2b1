-- ===== src/Examples/Guards.antt =====
-- Runs of what guards the backend, and of what it normalizes.
use bridge_pay_backend.Common.{ℕ, ◌≡◌, ◌≢◌, refl, ap, true, false, List, [], ◌∷◌, none, some, inr}
use bridge_pay_backend.Common.Table.{All, paginate, select, update, length}
use bridge_pay_backend.Common.Text.{Str, codes, str_eq, is_ascii, is_given, is_text}
use bridge_pay_backend.Errors.{Error, ok, err, refresh_token_reused}
use bridge_pay_backend.Examples.World.{
  world, bank, alice, alice_account, session_token, reset_token,
}
use bridge_pay_backend.Schema.{Db, User, RefreshToken, Transaction}
use bridge_pay_backend.Session.{endpoint, close, catch, recover, ◌>>=◌, scalar_one_or_none}
use bridge_pay_backend.Admin.{list_audit_logs, list_audit_logs_for_admin}
use bridge_pay_backend.Admin.Guarded.{NamesAdmin, admin_routes_checked}
use bridge_pay_backend.Audit.{log_action}
use bridge_pay_backend.Auth.{
  TokenTable, tokens_of, with_tokens, invalid, get_by_hash, get_refresh_by_hash, create_refresh,
}
use bridge_pay_backend.Auth.Access.{consume_once, login_checked}
use bridge_pay_backend.Auth.Rotation.{
  AllRevoked, rotate_refresh_token_reused, rotate_refresh_token_once,
}
use bridge_pay_backend.Auth.Router.{login, admit}
use bridge_pay_backend.Auth.Sessions.{
  rotate_refresh_token, rotate_stored, issue_refresh_token, revoke_where,
}
use bridge_pay_backend.Auth.SingleUse.{consume}
use bridge_pay_backend.Core.Dependencies.{get_current_user, get_current_admin_user}
use bridge_pay_backend.Core.Phone.Digits.{is_digit, in_ranges}
use bridge_pay_backend.Core.Phone.{
  normalize_mpesa, normalize_airtel, starts_with, expand, digits_of, country_code,
}
use bridge_pay_backend.Core.Phone.Format.{
  AllDigits, with_country_code, normalize_agree, normalize_mpesa_format,
}
use bridge_pay_backend.Notifications.{for_user, list_for_user, mark_all_read}
use bridge_pay_backend.Notifications.Inbox.{mark_all_read_clears}
use bridge_pay_backend.Transactions.{involves, list_my_transactions}
use bridge_pay_backend.Transactions.Own.{list_my_transactions_own}
use bridge_pay_backend.Transfers.{lock_accounts_in_order}
use bridge_pay_backend.Transfers.Order.{lock_order_symmetric}
use bridge_pay_backend.Users
use bridge_pay_backend.Webhooks.{
  airtel_collection_callback, airtel_disbursement_callback, verify_callback_signature,
  digest_matches, compare_digest,
}
use bridge_pay_backend.Webhooks.Guarded.{
  verify_callback_signature_sound, verify_callback_signature_complete, airtel_callbacks_forged,
  RefusedWith,
}

verify_callback_signature_sound_example :
    (some (codes "k") ≡ some (world.hmac_sha256 world.airtel_callback_secret (codes "in")))
    × (is_given (some world.airtel_callback_secret) ≡ true)
unfolding verify_callback_signature digest_matches compare_digest is_ascii str_eq
verify_callback_signature_sound_example =
    verify_callback_signature_sound world (codes "in") (some (codes "k")) refl

verify_callback_signature_complete_example :
    verify_callback_signature world (codes "in") (some (codes "k")) ≡ ok true
unfolding is_ascii
verify_callback_signature_complete_example =
    verify_callback_signature_complete world (codes "in") (codes "k") refl refl refl refl

airtel_callbacks_forged_example :
    (e : Error) × RefusedWith e
    × (airtel_collection_callback world (codes "in") (some (codes "z")) bank ≡ (err e, bank))
    × (airtel_disbursement_callback world (codes "in") (some (codes "z")) bank ≡ (err e, bank))
unfolding str_eq
airtel_callbacks_forged_example =
    airtel_callbacks_forged world (codes "in") (some (codes "z")) bank (λ signed. forged signed.0)
  where
    forged : ¬ (some (codes "z") ≡ some (codes "k"))
    forged e = let f : false ≡ true = ap (λ d. is_text d (codes "k")) e in cc

-- Alice as an administrator.
abbrev admin : User
admin = record alice { is_admin = true }

admin_routes_checked_example : NamesAdmin (some 0) (admin ∷ [])
unfolding list_audit_logs list_audit_logs_for_admin get_current_admin_user get_current_user
    Users.get_by_id Users.find_one scalar_one_or_none select paginate ◌>>=◌
admin_routes_checked_example =
    admin_routes_checked (some 0) 1 20 none none (record bank { users = admin ∷ [] })
      (record bank { users = admin ∷ [] }) (inr (([], 0), refl))

list_my_transactions_own_example :
    (items : List Transaction) × (list_my_transactions 0 1 20 bank
      ≡ (ok (items, length (select (involves 2) bank.transactions)), bank))
    × All (λ t. involves 2 t ≡ true) items
unfolding select
list_my_transactions_own_example = list_my_transactions_own 0 1 20 alice_account bank refl

mark_all_read_clears_example :
    let s' = (mark_all_read 0 bank).1 in
    (list_for_user 0 1 20 true s' ≡ (ok ([], 0), s'))
    × ((other : ℕ)
        → other ≢ 0
        → select (for_user other) s'.notifications ≡ select (for_user other) bank.notifications)
mark_all_read_clears_example = mark_all_read_clears 0 1 20 bank

consume_once_example :
    consume world TokenTable.password_reset
      (codes "v")
      (consume world TokenTable.password_reset (codes "v") bank).1
    ≡ (
      err (invalid TokenTable.password_reset),
      (consume world TokenTable.password_reset (codes "v") bank).1,
    )
unfolding consume get_by_hash tokens_of with_tokens scalar_one_or_none select str_eq ◌>>=◌
consume_once_example =
    consume_once world TokenTable.password_reset (codes "v") reset_token bank
      (consume world TokenTable.password_reset (codes "v") bank).1 refl

abbrev logged_in : Db
logged_in = (login world (codes "n") (codes "a") (codes "pw") bank).1

login_checked_example :
    (u : User) × (select (Users.has_email (codes "a")) bank.users ≡ u ∷ [])
    × (0 ≡ u.id)
    × ((hashed : Str) × (u.hashed_password ≡ some hashed)
        × (world.verify_password (codes "pw") hashed ≡ true))
unfolding login admit endpoint close catch recover Users.get_by_email Users.find_one
    scalar_one_or_none select str_eq log_action issue_refresh_token create_refresh ◌>>=◌
login_checked_example =
    login_checked world (codes "n") (codes "a") (codes "pw") (0, codes "n") bank logged_in refl

abbrev rotated : Db
rotated = (rotate_refresh_token world (codes "t") (codes "n") bank).1

rotate_refresh_token_once_example :
    ((rotate_refresh_token world (codes "t") (codes "m") rotated).0 ≡ err refresh_token_reused)
    × AllRevoked 0 (rotate_refresh_token world (codes "t") (codes "m") rotated).1.refresh_tokens
unfolding rotate_refresh_token rotate_stored get_refresh_by_hash revoke_where issue_refresh_token
    create_refresh scalar_one_or_none select str_eq update ◌>>=◌
rotate_refresh_token_once_example =
    rotate_refresh_token_once world (codes "t") (codes "n") 0 (codes "n") (codes "m") bank rotated
      refl

abbrev revoked_token : RefreshToken
revoked_token = record session_token { revoked = true }

abbrev stolen : Db
stolen = record bank { refresh_tokens = revoked_token ∷ [] }

rotate_refresh_token_reused_example :
    ((rotate_refresh_token world (codes "t") (codes "m") stolen).0 ≡ err refresh_token_reused)
    × AllRevoked 0 (rotate_refresh_token world (codes "t") (codes "m") stolen).1.refresh_tokens
unfolding select str_eq
rotate_refresh_token_reused_example =
    rotate_refresh_token_reused world (codes "t") (codes "m") stolen revoked_token refl refl

lock_order_symmetric_example :
    lock_accounts_in_order (3 ∷ 2 ∷ []) ≡ lock_accounts_in_order (2 ∷ 3 ∷ [])
lock_order_symmetric_example = lock_order_symmetric 3 2

normalize_agree_example :
    normalize_mpesa (codes "0712 345678")
    ≡ with_country_code (normalize_airtel (codes "0712 345678"))
normalize_agree_example = normalize_agree (codes "0712 345678")

normalize_mpesa_format_example :
    (length (codes "254712345678") ≡ 12)
    × (starts_with (codes "254712345678") country_code ≡ true)
    × AllDigits (codes "254712345678")
    × (normalize_mpesa (codes "254712345678") ≡ ok (codes "254712345678"))
unfolding normalize_mpesa starts_with expand digits_of is_digit in_ranges
normalize_mpesa_format_example =
    normalize_mpesa_format (codes "0712 345678") (codes "254712345678") refl

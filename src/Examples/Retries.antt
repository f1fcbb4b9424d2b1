-- ===== src/Examples/Retries.antt =====
-- Runs of a payout that is asked for twice, and of a change of the password.
use bridge_pay_backend.Common.{◌≡◌, refl, [], ◌∷◌, some}
use bridge_pay_backend.Common.Table.{select, update}
use bridge_pay_backend.Common.Text.{codes, str_eq, upper}
use bridge_pay_backend.Errors.{ok}
use bridge_pay_backend.Examples.World.{world, bank, alice, pending_payout}
use bridge_pay_backend.Json.{str, obj, field, end, get_or, field_or, as_text, is_truthy}
use bridge_pay_backend.Providers.{Reply, answered, failed, read_mpesa, checked_phone}
use bridge_pay_backend.Schema.{Db, Payout, of_cents}
use bridge_pay_backend.Session.{◌>>=◌, catch, recover, scalar_one, scalar_one_or_none}
use bridge_pay_backend.Accounts.{get_by_id_locked, add_transaction, is_short, scale}
use bridge_pay_backend.Auth.Rotation.{AllRevoked}
use bridge_pay_backend.Auth.Sessions.{revoke_all_for_user, revoke_where}
use bridge_pay_backend.Core.Phone.Digits.{is_digit, in_ranges}
use bridge_pay_backend.Core.Phone.{normalize_mpesa, starts_with, expand, digits_of}
use bridge_pay_backend.Core.Rates.{convert, get_exchange_rate}
use bridge_pay_backend.Errors.{http_error}
use bridge_pay_backend.Payouts
use bridge_pay_backend.Payouts.Mobile.{find_existing, open_payout, send_mpesa, create_mpesa_payout}
use bridge_pay_backend.Payouts.Retry.{create_mpesa_payout_retried}
use bridge_pay_backend.Payouts.Wallet.{deduct_balance_and_record, conversion_happened}
use bridge_pay_backend.Profile.{change, change_password}
use bridge_pay_backend.Profile.Sessions.{change_password_revokes}
use bridge_pay_backend.Notifications.{notify}

abbrev accepted : Reply
accepted =
    answered 200 (codes "ok") (some (obj (field (codes "ConversationID") (str (codes "c")) end)))

abbrev sent : Db
sent =
    (create_mpesa_payout world accepted alice 2 (codes "0712345678") (codes "b") 200
      (some (codes "k")) bank).1

abbrev made : Payout
made = record pending_payout {
  id = 11;
  amount = 200;
  external_reference = some (codes "c");
  idempotency_key = some (codes "k");
  transaction_id = some 10;
}

create_mpesa_payout_retried_example :
    (q : Payout) × (select (Payouts.has_key 0 (codes "k")) sent.payouts ≡ q ∷ [])
    × (create_mpesa_payout world
          (failed (http_error (codes "x")))
          alice
          2
          (codes "0712345678")
          (codes "b")
          300
          (some (codes "k"))
          sent
        ≡ (ok q, sent))
unfolding create_mpesa_payout find_existing Payouts.get_by_idempotency_key_for_user checked_phone
    normalize_mpesa starts_with expand digits_of is_digit in_ranges open_payout
    deduct_balance_and_record get_by_id_locked convert get_exchange_rate is_short scale of_cents
    add_transaction Payouts.create conversion_happened send_mpesa read_mpesa
    Payouts.set_external_reference Payouts.change catch recover get_or field_or as_text is_truthy
    str_eq upper select update scalar_one scalar_one_or_none ◌>>=◌
create_mpesa_payout_retried_example =
    create_mpesa_payout_retried world alice (codes "k") accepted (failed (http_error (codes "x"))) 2
      2 (codes "0712345678") (codes "0712345678") (codes "b") (codes "b") 200 300 made bank sent
      refl refl

abbrev changed : Db
changed = (change_password world alice (codes "pw") (codes "new") bank).1

change_password_revokes_example : AllRevoked 0 changed.refresh_tokens
unfolding change_password change revoke_all_for_user revoke_where notify str_eq update ◌>>=◌
change_password_revokes_example =
    change_password_revokes world alice (codes "pw") (codes "new") bank changed refl

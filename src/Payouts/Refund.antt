-- ===== src/Payouts/Refund.antt =====
-- Proofs about app/modules/payouts/service.py: a deduction and its reversal.
use bridge_pay_backend.Common.{
  ℕ, suc, ◌≡◌, ◌∙◌, refl, sym, ap, subst, false, List, [], ◌∷◌, Option, none, some, ◌⊎◌, inl, inr,
  ==_refl,
}
use bridge_pay_backend.Common.Int.{pos, ◌-ℤ◌, int_laws}
use bridge_pay_backend.Common.Table.{select, update, select-update, length}
use bridge_pay_backend.Common.Text
use bridge_pay_backend.Common.Text.{Str, codes, upper, str_eq, too_long}
use bridge_pay_backend.Core.Phone.{normalize_mpesa}
use bridge_pay_backend.Core.Phone.Format.{normalize_mpesa_format}
use bridge_pay_backend.Core.Rates.{rate_one}
use bridge_pay_backend.Core.Rates.Cache.{convert_same_currency}
use bridge_pay_backend.Errors.{
  Error, Result, ok, err, value_error, mpesa_request_failed, runtime_error, http_error,
}
use bridge_pay_backend.Json.{Json, str}
use bridge_pay_backend.Notifications.{notify}
use bridge_pay_backend.Outside.{Outside, RoundsToNearest}
use bridge_pay_backend.Providers.{Reply, read_mpesa, checked_phone}
use bridge_pay_backend.Schema.{
  User, Account, Db, Payout, NotificationType, TransactionType, ReferenceNote, of_cents,
}
use bridge_pay_backend.Session.{
  pure, raise, ◌>>=◌, ◌>>◌, modify, fresh_id, catch, recover, scalar_one,
}
use bridge_pay_backend.Session.Keeps.{
  Keeps, Keeps-raise, Leads-bind, Leads, keeps_rules, Leads-modify,
}
use bridge_pay_backend.Accounts.{
  has_id, get_by_id_locked, credit, debit, is_short, entry, add_transaction,
}
use bridge_pay_backend.Accounts.Balance.{rounded-add, rounded-sub}
use bridge_pay_backend.Accounts.Locked.{IsRow}
use bridge_pay_backend.Payouts.{create, change, mark_reversed}
use bridge_pay_backend.Payouts.Mobile.{
  find_existing, open_payout, reverse_mpesa, send_mpesa, create_mpesa_payout,
}
use bridge_pay_backend.Payouts.Wallet.{
  Deduction, deduct_balance_and_record, amount_to_credit, reverse_deduction, conversion_happened,
}
use bridge_pay_backend.Users.{get_user}

-- What looks at the accounts alone does not see the rest of the work.
module _ (F : List Account → Type 0) where
  abbrev OfAccounts : Db → Type 0
  OfAccounts s = F s.accounts

  Keeps-fresh_id : Keeps OfAccounts fresh_id
  unfolding fresh_id
  Keeps-fresh_id = record { at = λ s h. h }

  Keeps-elsewhere :
      (f : Db → Db) → ((s : Db) → F s.accounts → F (f s).accounts) → Keeps OfAccounts (modify f)
  Keeps-elsewhere f h = Leads-modify f h

  Keeps-get_user : (id : ℕ) → Keeps OfAccounts (get_user id)
  unfolding get_user
  Keeps-get_user id = search keeps_rules

  Keeps-notify : (id : ℕ) (type : _) (t : Option ℕ) → Keeps OfAccounts (notify id type t)
  unfolding notify
  Keeps-notify id type t = search (keeps_rules, Keeps-fresh_id, Keeps-elsewhere) depth 10

  Keeps-mark_reversed : (p : Payout) (reason : Json) → Keeps OfAccounts (mark_reversed p reason)
  unfolding mark_reversed change
  Keeps-mark_reversed p reason = search (keeps_rules, Keeps-elsewhere) depth 10

  -- What follows the credit of a reversal.
  Keeps-after_credit :
      (p : Payout) (reason : Json) (t : ℕ)
      → Keeps OfAccounts (
          mark_reversed p reason >>= λ reversed.
          (get_user p.user_id >>= λ user.
          (notify p.user_id NotificationType.payout_reversed (some t) >> pure reversed)))
  Keeps-after_credit p reason t =
      search (keeps_rules, Keeps-mark_reversed, Keeps-get_user, Keeps-notify) depth 12

module _ (o : Outside) (nearest : RoundsToNearest o) (a : Account) (amount : ℕ) where
  -- The account less the amount.
  abbrev less : Account
  less = debit o (of_cents amount) a

  restored : credit o (of_cents amount) less ≡ a
  unfolding credit debit
  restored =
      ap (λ b. record a { balance = b })
        (rw (rounded-sub o nearest a.balance amount)
          (rw (rounded-add o nearest (a.balance -ℤ pos amount) amount) (omega int_laws)))

  -- The state behind a deduction without a conversion.
  abbrev deducted : Db → Db
  deducted s = record s {
    next_id = suc s.next_id;
    accounts = update (has_id a.id) (debit o (of_cents amount)) s.accounts;
    transactions =
        entry s.next_id (some a.id) none (o.to_cents (of_cents amount)) a.currency
          TransactionType.withdrawal ReferenceNote.external_payout
        ∷ s.transactions;
  }

  abbrev deduction : Db → Deduction
  deduction s = record {
    converted_amount = of_cents amount;
    exchange_rate = rate_one;
    account_currency = a.currency;
    transaction_id = s.next_id;
  }

  module _ (currency : Str) (same : upper currency ≡ upper a.currency)
      (covered : is_short a (of_cents amount) ≡ false) where
    deduct_runs :
        (account_id : ℕ) (s : Db)
        → IsRow account_id a s
        → deduct_balance_and_record o account_id amount currency s ≡ (ok (deduction s), deducted s)
    unfolding deduct_balance_and_record get_by_id_locked scalar_one add_transaction ◌>>=◌
    deduct_runs account_id s row = rw row (
        rw (convert_same_currency o.now o.feed amount currency a.currency s same) (rw covered refl))

  deducted_row :
      (account_id : ℕ) (s : Db)
      → IsRow account_id a s
      → select (has_id account_id) (deducted s).accounts ≡ less ∷ []
  unfolding debit update
  deducted_row account_id s row =
      select-update (has_id account_id) (has_id a.id) (debit o (of_cents amount)) (λ b. refl)
        s.accounts
      ∙ rw row (rw (==_refl a.id) refl)

  -- The reversal of a payout whose money is `amount` of the account's.
  reverse_restores :
      (p : Payout) (reason : Json)
      → amount_to_credit p ≡ of_cents amount
      → Leads
          (λ s. select (has_id p.account_id) s.accounts ≡ less ∷ [])
          (λ s. select (has_id p.account_id) s.accounts ≡ a ∷ [])
          (reverse_deduction o p reason)
  unfolding reverse_deduction get_by_id_locked scalar_one add_transaction credit debit update ◌>>=◌
  reverse_restores p reason money = record {
    at = λ s row.
        let credited : select (has_id p.account_id)
              (update (has_id a.id) (credit o (of_cents amount)) s.accounts)
            ≡ a ∷ [] =
          select-update (has_id p.account_id) (has_id a.id) (credit o (of_cents amount)) (λ b. refl)
            s.accounts
          ∙ rw row (rw (==_refl a.id) (ap (λ b. b ∷ []) restored)) in
        rw (row, money)
          ((Keeps-after_credit (λ t. select (has_id p.account_id) t ≡ a ∷ []) p reason s.next_id).at
            _ credited);
  }

-- The table's count of a text is the text's.
length_same : (s : Str) → Text.length s ≡ length s
length_same [] = refl
length_same (c ∷ s) = ap suc (length_same s)

refused_number : (e : Error) (digits : Str) → ¬ (checked_phone (err e) ≡ ok digits)
unfolding checked_phone
refused_number value_error digits h = cc
refused_number _ digits h = cc

-- A number in Daraja's format fits its column.
number_fits :
    (phone digits : Str)
    → checked_phone (normalize_mpesa phone) ≡ ok digits
    → too_long 255 digits ≡ false
unfolding checked_phone
number_fits phone digits = of_result (normalize_mpesa phone) refl
  where
    of_result :
        (r : Result Str)
        → normalize_mpesa phone ≡ r
        → checked_phone r ≡ ok digits
        → too_long 255 digits ≡ false
    of_result (ok d) e h =
        let same : d ≡ digits = cc in
        let twelve : length d ≡ 12 = (normalize_mpesa_format phone d e).0 in
        let fits : too_long 255 d ≡ false = rw (length_same d, twelve) refl in
        subst (λ x. too_long 255 x ≡ false) same fits
    of_result (err error) e h = absurd (refused_number error digits h)

-- The errors of a request to Daraja that M-Pesa's payouts catch.
abbrev pub IsCaught : Error → Type 0
IsCaught e =
    ((t : Str) × (e ≡ mpesa_request_failed t))
    ⊎ ((t : Str) × (e ≡ runtime_error t))
    ⊎ ((t : Str) × (e ≡ http_error t))

module _ (o : Outside) (nearest : RoundsToNearest o) (a : Account) (amount : ℕ) where
  reverse_mpesa_restores :
      (p : Payout) (e : Error)
      → IsCaught e
      → amount_to_credit p ≡ of_cents amount
      → Leads
          (λ s. select (has_id p.account_id) s.accounts ≡ less o nearest a amount ∷ [])
          (λ s. select (has_id p.account_id) s.accounts ≡ a ∷ [])
          (reverse_mpesa o p e)
  unfolding reverse_mpesa
  reverse_mpesa_restores p e caught money = of_case caught
    where
      back :
          (t : Str) (e' : Error)
          → Leads
              (λ s. select (has_id p.account_id) s.accounts ≡ less o nearest a amount ∷ [])
              (λ s. select (has_id p.account_id) s.accounts ≡ a ∷ [])
              (reverse_deduction o p (str t) >> raise {A = Payout} e')
      back t e' =
          Leads-bind (λ s h. h) _ _ (reverse_restores o nearest a amount p (str t) money)
            (λ q. Keeps-raise e')

      of_case :
          IsCaught e
          → Leads
              (λ s. select (has_id p.account_id) s.accounts ≡ less o nearest a amount ∷ [])
              (λ s. select (has_id p.account_id) s.accounts ≡ a ∷ [])
              (reverse_mpesa o p e)
      of_case (inl (t, is)) = rw is (back t _)
      of_case (inr (inl (t, is))) = rw is (back t _)
      of_case (inr (inr (t, is))) = rw is (back t _)

  -- A payout to M-Pesa from an account in shillings that has the money, new under its idempotency key and to a
  -- number that is accepted, leaves the account as it was where the request to Daraja fails in a way that the
  -- code catches, if the database rounds to a nearest cent.
  pub create_mpesa_payout_refunded :
      (reply : Reply) (user : User) (account_id : ℕ) (phone digits email : Str) (key : Option Str)
      (e : Error) (s : Db)
      → find_existing user.id key s ≡ (ok none, s)
      → checked_phone (normalize_mpesa phone) ≡ ok digits
      → read_mpesa o mpesa_request_failed
          (codes "ConversationID")
          (codes "B2C request failed: ")
          (codes "B2C request did not return a ConversationID: ")
          reply
        ≡ err e
      → IsCaught e
      → select (has_id account_id) s.accounts ≡ a ∷ []
      → a.currency ≡ codes "KES"
      → is_short a (of_cents amount) ≡ false
      → select
          (has_id account_id)
          (create_mpesa_payout o reply user account_id phone email amount key s).1.accounts
        ≡ a ∷ []
  unfolding create_mpesa_payout open_payout send_mpesa catch recover create amount_to_credit
      conversion_happened of_cents str_eq upper ◌>>=◌
  create_mpesa_payout_refunded reply user account_id phone digits email key e s fresh number failed
        caught row kes covered =
      rw
        (
          fresh,
          number,
          number_fits phone digits number,
          deduct_runs o nearest a amount (codes "KES") (ap upper (sym kes)) covered account_id s
              row,
        )
        (rw failed (
          (reverse_mpesa_restores _ e caught (rw kes refl)).at _
            (deducted_row o nearest a amount account_id s row)))

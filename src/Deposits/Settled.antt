-- ===== src/Deposits/Settled.antt =====
-- Proofs about `_credit_account_and_record` of app/modules/deposits/service.py: how a confirmed deposit ends.
use bridge_pay_backend.Common.{
  ℕ, ◌≡◌, ◌⊎◌, ◌*◌, ◌+◌, refl, true, false, Bool-cases, inl, inr, List, [], ◌∷◌, ◌++◌, Option, none,
  some, ◌==◌,
}
use bridge_pay_backend.Common.Table.{All, select, update}
use bridge_pay_backend.Common.Text.{Str, codes, upper, str_eq, too_long}
use bridge_pay_backend.Errors.{Error, ok, err, invalid_operation, type_error}
use bridge_pay_backend.Json.{as_nullable_text}
use bridge_pay_backend.Outside.{Outside}
use bridge_pay_backend.Schema.{
  Account, Deposit, User, Db, Quote, quoted, refused, not_a_number, not_a_mapping,
  is_pending_deposit, Decimal, CachedRate,
}
use bridge_pay_backend.Session.{◌>>=◌, attempt, scalar_one, raise}
use bridge_pay_backend.Accounts.{has_id, get_by_id_locked, add_transaction}
use bridge_pay_backend.Core.Rates.{
  Feed, find_rate, live_rate, get_exchange_rate, convert, fetch_rate, unavailable, remember,
  cache_ttl_seconds, rate_one,
}
use bridge_pay_backend.Deposits.{
  mark_failed, mark_completed, change, failed, completed, set_conversion,
}
use bridge_pay_backend.Deposits.Credit.{
  fail, finish, credit_converted, after_conversion, credit_account_and_record,
}
use bridge_pay_backend.Notifications.{notify}
use bridge_pay_backend.Users

-- What a deposit's row says of a rate that could not be had.
abbrev pub reason_text : Str → Str → Str → Str
reason_text f t e =
    codes "Currency conversion failed: "
    ++ (codes "Could not fetch exchange rate " ++ (f ++ (codes "->" ++ (t ++ (codes ": " ++ e)))))

fetch_refused :
    (now : ℕ) (feed : Feed) (f t e : Str) (s : Db)
    → feed f t ≡ refused e
    → fetch_rate now feed f t s ≡ (err (unavailable f t e), s)
unfolding fetch_rate raise
fetch_refused now feed f t e s h = rw (h, fetch_rate) refl

convert_refused :
    (now : ℕ) (feed : Feed) (x : ℕ) (f t e : Str) (s : Db)
    → str_eq (upper f) (upper t) ≡ false
    → live_rate now (find_rate (upper f) (upper t) s.rate_cache) ≡ none
    → feed (upper f) (upper t) ≡ refused e
    → convert now feed x f t s ≡ (err (unavailable (upper f) (upper t) e), s)
unfolding convert get_exchange_rate ◌>>=◌
convert_refused now feed x f t e s differ cold refuses =
    rw (differ, get_exchange_rate)
      (rw cold (rw (fetch_refused now feed (upper f) (upper t) e s refuses) refl))

-- The exceptions behind an answer of the feed that the code does not catch.
abbrev pub uncaught : Quote → Option Error
uncaught (quoted r) = none
uncaught (refused e) = none
uncaught not_a_number = some invalid_operation
uncaught not_a_mapping = some type_error

-- A quote is a rate, a refusal or an answer that breaks the reading.
Quote-cases :
    (q : Quote)
    → ((r : Decimal) × (q ≡ quoted r))
      ⊎ ((e : Str) × (q ≡ refused e))
      ⊎ ((q ≡ not_a_number) ⊎ (q ≡ not_a_mapping))
Quote-cases (quoted r) = inl (r, refl)
Quote-cases (refused e) = inr (inl (e, refl))
Quote-cases not_a_number = inr (inr (inl refl))
Quote-cases not_a_mapping = inr (inr (inr refl))

Option-cases : (c : Option Decimal) → ((r : Decimal) × (c ≡ some r)) ⊎ (c ≡ none)
Option-cases none = inr refl
Option-cases (some r) = inl (r, refl)

-- A conversion gives a rate, and changes the cache alone; or the feed has refused or its answer breaks the
-- reading, and it changes nothing.
module _ (now : ℕ) (feed : Feed) (x : ℕ) (f t : Str) (s : Db) where
  abbrev Converted : Type 0
  Converted =
      (r : Decimal) × (cache : List CachedRate) × (convert now feed x f t s
        ≡ (ok (x * r, r), record s { rate_cache = cache }))

  abbrev Refused : Type 0
  Refused =
      (e : Str) × (feed (upper f) (upper t) ≡ refused e)
      × (convert now feed x f t s ≡ (err (unavailable (upper f) (upper t) e), s))

  -- The exceptions that go through: not the one that the completion of a deposit catches.
  abbrev Broken : Type 0
  Broken =
      (e : Error) × (uncaught (feed (upper f) (upper t)) ≡ some e)
      × (convert now feed x f t s ≡ (err e, s))
      × ((e ≡ invalid_operation) ⊎ (e ≡ type_error))

  broken :
      str_eq (upper f) (upper t) ≡ false
      → live_rate now (find_rate (upper f) (upper t) s.rate_cache) ≡ none
      → (feed (upper f) (upper t) ≡ not_a_number) ⊎ (feed (upper f) (upper t) ≡ not_a_mapping)
      → Broken
  unfolding convert get_exchange_rate ◌>>=◌ fetch_rate raise
  broken differ cold (inl q) = (
    invalid_operation,
    rw q refl,
    rw (differ, get_exchange_rate) (rw cold (rw (q, fetch_rate) refl)),
    inl refl,
  )
  broken differ cold (inr q) = (
    type_error,
    rw q refl,
    rw (differ, get_exchange_rate) (rw cold (rw (q, fetch_rate) refl)),
    inr refl,
  )

  fetched :
      (r : Decimal)
      → feed (upper f) (upper t) ≡ quoted r
      → str_eq (upper f) (upper t) ≡ false
      → live_rate now (find_rate (upper f) (upper t) s.rate_cache) ≡ none
      → Converted
  unfolding convert get_exchange_rate ◌>>=◌ fetch_rate remember
  fetched r quote differ cold = (
    r,
    record {
      from_currency = upper f;
      to_currency = upper t;
      rate = r;
      expires_at = now + cache_ttl_seconds;
    }
        ∷ s.rate_cache,
    rw (differ, get_exchange_rate) (rw cold (rw (quote, fetch_rate) refl)),
  )

  convert-cases : Converted ⊎ Refused ⊎ Broken
  unfolding convert get_exchange_rate ◌>>=◌
  convert-cases = elim (Bool-cases (str_eq (upper f) (upper t))) [
    | inl same ↦ inl (rate_one, s.rate_cache, rw (same, get_exchange_rate) refl)
    | inr differ ↦
        elim (Option-cases (live_rate now (find_rate (upper f) (upper t) s.rate_cache))) [
          | inl (r, warm) ↦ inl (r, s.rate_cache, rw (differ, get_exchange_rate) (rw warm refl))
          | inr cold ↦ elim (Quote-cases (feed (upper f) (upper t))) [
            | inl (r, quote) ↦ inl (fetched r quote differ cold)
            | inr (inl (e, refuses)) ↦
                inr (inl (e, refuses, convert_refused now feed x f t e s differ cold refuses))
            | inr (inr q) ↦ inr (inr (broken differ cold q))
          ]
        ]
  ]

-- No deposit of that id is pending.
abbrev pub IsSettled : ℕ → List Deposit → Type 0
IsSettled id ds = All (λ x. (x.id == id) ≡ true → is_pending_deposit x.status ≡ false) ds

IsSettled-update :
    (id : ℕ) (f : Deposit → Deposit)
    → ((x : Deposit) → is_pending_deposit (f x).status ≡ false)
    → ((x : Deposit) → (f x).id ≡ x.id)
    → (ds : List Deposit) → IsSettled id (update (λ x. x.id == id) f ds)
unfolding update
IsSettled-update id f ends keeps [] = tt
IsSettled-update id f ends keeps (x ∷ ds) = (
  elim (Bool-cases (x.id == id)) [ inl e ↦ rw e (λ k. ends x) | inr e ↦ rw e (λ k. absurd (cc)) ],
  IsSettled-update id f ends keeps ds,
)

module _ (o : Outside) (d : Deposit) (a : Account) (u : User) (s : Db) where
  abbrev from_currency : Str
  from_currency = upper d.currency

  abbrev to_currency : Str
  to_currency = upper a.currency

  -- A confirmed deposit in another currency, where no rate is cached that lives and the feed refuses one, is
  -- marked failed with the reason that the feed gave, where the column has room for it; every balance and the
  -- ledger stay as they were.
  pub credit_account_and_record_without_rate :
      (e : Str)
      → select (has_id d.account_id) s.accounts ≡ a ∷ []
      → select (Users.has_id d.user_id) s.users ≡ u ∷ []
      → str_eq from_currency to_currency ≡ false
      → live_rate o.now (find_rate from_currency to_currency s.rate_cache) ≡ none
      → o.feed from_currency to_currency ≡ refused e
      → too_long 500 (reason_text from_currency to_currency e) ≡ false
      → let (r, s') = credit_account_and_record o d s in
        (r ≡ ok tt)
        × (s'.accounts ≡ s.accounts)
        × (s'.transactions ≡ s.transactions)
        × (s'.deposits
            ≡ update
                (λ x. x.id == d.id)
                (failed (some (reason_text from_currency to_currency e)))
                s.deposits)
  unfolding credit_account_and_record after_conversion fail mark_failed change notify
      get_by_id_locked attempt Users.get_user scalar_one ◌>>=◌ unavailable as_nullable_text
  credit_account_and_record_without_rate e row user differ cold refuses fits = rw row (
      rw (convert_refused o.now o.feed d.amount d.currency a.currency e s differ cold refuses)
        (rw fits (rw user (refl, refl, refl, refl))))

  refused_settles :
      (e : Str)
      → select (Users.has_id d.user_id) s.users ≡ u ∷ []
      → too_long 500 (reason_text from_currency to_currency e) ≡ false
      → let (r, s') = after_conversion o d a (err (unavailable from_currency to_currency e)) s in
        (r ≡ ok tt) × IsSettled d.id s'.deposits
  unfolding after_conversion fail mark_failed change notify Users.get_user scalar_one ◌>>=◌
      unavailable as_nullable_text is_pending_deposit failed
  refused_settles e user fits = rw fits (
      rw user (
        refl,
        IsSettled-update d.id (failed (some (reason_text from_currency to_currency e))) (λ x. refl)
            (λ x. refl) s.deposits,
      ))

  converted_settles :
      (x rate : Decimal)
      → select (Users.has_id d.user_id) s.users ≡ u ∷ []
      → let (r, s') = after_conversion o d a (ok (x, rate)) s in
        (r ≡ ok tt) × IsSettled d.id s'.deposits
  unfolding after_conversion credit_converted finish mark_completed change set_conversion notify
      add_transaction Users.get_user scalar_one ◌>>=◌ is_pending_deposit completed
  converted_settles x rate user = elim (Bool-cases (str_eq from_currency to_currency)) [
    | inl e ↦
        rw e (
          rw user
            (refl, IsSettled-update d.id (completed o.now) (λ x. refl) (λ x. refl) s.deposits))
    | inr e ↦
        rw e (rw user (refl, IsSettled-update d.id (completed o.now) (λ x. refl) (λ x. refl) _))
  ]

-- How the completion of a confirmed deposit may end, with one row for its account, one for its user, and room in
-- the column's 500 characters for the reason of a refused rate: it returns, and no row of the deposit is pending,
-- whether a rate was needed, cached, quoted or refused; or the feed's answer breaks the reading of the rate, that
-- exception goes through, and the tables are as they were.
pub credit_account_and_record_settles :
    (o : Outside) (d : Deposit) (a : Account) (u : User) (s : Db)
    → select (has_id d.account_id) s.accounts ≡ a ∷ []
    → select (Users.has_id d.user_id) s.users ≡ u ∷ []
    → ((e : Str)
        → o.feed (upper d.currency) (upper a.currency) ≡ refused e
        → too_long 500 (reason_text (upper d.currency) (upper a.currency) e) ≡ false)
    → let (r, s') = credit_account_and_record o d s in
      ((r ≡ ok tt) × IsSettled d.id s'.deposits)
      ⊎ ((e : Error) × (uncaught (o.feed (upper d.currency) (upper a.currency)) ≡ some e)
          × (r ≡ err e)
          × (s' ≡ s))
unfolding credit_account_and_record get_by_id_locked attempt scalar_one ◌>>=◌ after_conversion raise
credit_account_and_record_settles o d a u s row user fits =
    elim (convert-cases o.now o.feed d.amount d.currency a.currency s) [
      | inl (r, cache, e) ↦ inl (
          rw row (
            rw e
              (converted_settles o d a u (record s { rate_cache = cache }) (d.amount * r) r user)))
      | inr (inl (text, refuses, e)) ↦
          inl (rw row (rw e (refused_settles o d a u s text user (fits text refuses))))
      | inr (inr (error, q, e, inl is)) ↦
          inr (error, q, rw row (rw (e, is) refl), rw row (rw (e, is) refl))
      | inr (inr (error, q, e, inr is)) ↦
          inr (error, q, rw row (rw (e, is) refl), rw row (rw (e, is) refl))
    ]

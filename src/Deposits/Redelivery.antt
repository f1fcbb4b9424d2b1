-- ===== src/Deposits/Redelivery.antt =====
-- Proofs about the callbacks of app/modules/deposits/service.py: a report that comes again.
use bridge_pay_backend.Common.{
  ℕ, ◌≡◌, ◌∙◌, ==_refl, refl, Bool, false, Bool-cases, inl, inr, List, [], ◌∷◌, Option, none, some,
}
use bridge_pay_backend.Common.Table.{select, update, select-update}
use bridge_pay_backend.Common.Text.{Str, codes}
use bridge_pay_backend.Errors.{Result, ok, err, exchange_rate_unavailable}
use bridge_pay_backend.Json.{Json, is_str}
use bridge_pay_backend.Outside.{Outside}
use bridge_pay_backend.Schema.{
  Db, Deposit, NotificationType, Account, Transaction, TransactionType, ReferenceNote, Decimal,
  is_pending_deposit,
}
use bridge_pay_backend.Session.{Action, pure, modify, fresh_id, ◌>>=◌}
use bridge_pay_backend.Session.Ends.{
  Ends, Ends-Keeps, Ends-behind, Ends-bind, Ends-if, Ends-modify, Ends-raise, Once, Once-pure,
  Once-lift, Once-if, Once-look_up, Once-idle,
}
use bridge_pay_backend.Session.Keeps.{Keeps, keeps_rules, Leads-modify, Leads-lift, Leads-attempt}
use bridge_pay_backend.Accounts.{get_by_id_locked, credit_row, add_transaction}
use bridge_pay_backend.Core.Rates.Cache.{Keeps-convert}
use bridge_pay_backend.Notifications.{notify}
use bridge_pay_backend.Deposits.{
  has_id, has_reference, get_by_external_reference, change, converted, completed, failed,
  set_conversion, mark_completed, mark_failed,
}
use bridge_pay_backend.Deposits.Callbacks.{
  with_pending, settle_deposit, on_event, handle_mpesa_stk_callback,
  handle_airtel_collection_callback, handle_stripe_webhook_event,
}
use bridge_pay_backend.Deposits.Credit.{
  fail, finish, credit_converted, after_conversion, credit_account_and_record,
}
use bridge_pay_backend.Users.{get_user}

abbrev IsOne : Str → ℕ → List Deposit → Type 0
IsOne text id ds = (d : Deposit) × (select (has_reference text) ds ≡ d ∷ []) × (d.id ≡ id)

abbrev IsSettled : Str → List Deposit → Type 0
IsSettled text ds =
    (d : Deposit) × (select (has_reference text) ds ≡ d ∷ [])
    × (is_pending_deposit d.status ≡ false)

-- What looks at the deposits alone does not see the rest of the work.
module _ (F : List Deposit → Type 0) where
  abbrev OfDeposits : Db → Type 0
  OfDeposits s = F s.deposits

  Keeps-fresh_id : Keeps OfDeposits fresh_id
  unfolding fresh_id
  Keeps-fresh_id = record { at = λ s h. h }

  Keeps-elsewhere :
      (f : Db → Db) → ((s : Db) → F s.deposits → F (f s).deposits) → Keeps OfDeposits (modify f)
  Keeps-elsewhere f h = Leads-modify f h

  Keeps-get_user : (id : ℕ) → Keeps OfDeposits (get_user id)
  unfolding get_user
  Keeps-get_user id = search keeps_rules

  Keeps-get_by_id_locked : (id : ℕ) → Keeps OfDeposits (get_by_id_locked id)
  unfolding get_by_id_locked
  Keeps-get_by_id_locked id = search keeps_rules

  Keeps-tell :
      (id : ℕ) (type : NotificationType) (t : Option ℕ)
      → Keeps OfDeposits (get_user id >>= λ user. notify id type t)
  unfolding notify
  Keeps-tell id type t =
      search (keeps_rules, Keeps-get_user, Keeps-fresh_id, Keeps-elsewhere) depth 10

  Keeps-credit_row : (o : Outside) (id x : ℕ) → Keeps OfDeposits (modify (credit_row o id x))
  Keeps-credit_row o id x = Keeps-elsewhere _ (λ s h. h)

  Keeps-add_transaction :
      (o : Outside) (f t : Option ℕ) (x : Decimal) (cur : Str) (type : TransactionType)
      (why : ReferenceNote)
      → Keeps OfDeposits (add_transaction o f t x cur type why)
  unfolding add_transaction
  Keeps-add_transaction o f t x cur type why =
      search (keeps_rules, Keeps-fresh_id, Keeps-elsewhere) depth 10

-- The one row of a reference under a change of the row of its id.
changed_row :
    (text : Str) (id : ℕ) (f : Deposit → Deposit)
    → ((d : Deposit) → has_reference text (f d) ≡ has_reference text d)
    → (ds : List Deposit) (d : Deposit) → select (has_reference text) ds ≡ d ∷ []
    → d.id ≡ id
    → select (has_reference text) (update (has_id id) f ds) ≡ f d ∷ []
unfolding update
changed_row text id f keeps ds d row same =
    select-update (has_reference text) (has_id id) f keeps ds
    ∙ rw row (rw same (rw (==_refl id) refl))

settles :
    (text : Str) (id : ℕ) (f : Deposit → Deposit)
    → ((d : Deposit) → has_reference text (f d) ≡ has_reference text d)
    → ((d : Deposit) → is_pending_deposit (f d).status ≡ false)
    → Ends (OfDeposits (IsOne text id)) (OfDeposits (IsSettled text)) (change f id)
unfolding change
settles text id f keeps closed = Ends-modify _ (λ s h.
    let (d, row, same) = h in (f d, changed_row text id f keeps s.deposits d row same, closed d))

module _ (text : Str) (d : Deposit) where
  fail-Ends :
      (reason : Json)
      → Ends (OfDeposits (IsOne text d.id)) (OfDeposits (IsSettled text)) (fail d reason)
  unfolding fail mark_failed failed is_pending_deposit
  fail-Ends reason =
      Ends-bind _ _
        (Ends-behind _ _ (Leads-lift (λ s h. h) _)
          (λ why. settles text d.id (failed why) (λ a. refl) (λ a. refl)))
        (λ u. Ends-Keeps _ (λ s h. h) (Keeps-tell (IsSettled text) d.user_id _ none))

  module _ (o : Outside) where
    finish-Ends :
        (t : Transaction)
        → Ends (OfDeposits (IsOne text d.id)) (OfDeposits (IsSettled text)) (finish o d t)
    unfolding finish mark_completed completed is_pending_deposit
    finish-Ends t =
        Ends-bind _ _ (settles text d.id (completed o.now) (λ a. refl) (λ a. refl))
          (λ u. Ends-Keeps _ (λ s h. h) (Keeps-tell (IsSettled text) d.user_id _ (some t.id)))

    Keeps-set_conversion :
        (rate x : Decimal) → Keeps (OfDeposits (IsOne text d.id)) (set_conversion o d.id rate x)
    unfolding set_conversion change converted
    Keeps-set_conversion rate x = Leads-modify _ (λ s h.
        let (e, row, same) = h in
        (
          converted o rate x e,
          changed_row text d.id (converted o rate x) (λ a. refl) s.deposits e row same,
          same,
        ))

    after_conversion-Ends :
        (account : Account) (r : Result (Decimal × Decimal))
        → Ends
            (OfDeposits (IsOne text d.id))
            (OfDeposits (IsSettled text))
            (after_conversion o d account r)
    unfolding after_conversion credit_converted
    after_conversion-Ends account (ok (x, rate)) =
        let one : List Deposit → Type 0 = IsOne text d.id in
        Ends-behind _ _ (Keeps-credit_row one o account.id x) (λ u.
          Ends-behind _ _ (search (keeps_rules, Keeps-set_conversion)) (λ u.
            Ends-behind _ _ (Keeps-add_transaction one o none (some account.id) x _ _ _)
              finish-Ends))
    after_conversion-Ends account (err (exchange_rate_unavailable e)) = fail-Ends _
    after_conversion-Ends account (err _) = Ends-raise _

    credit-Ends :
        Ends
          (OfDeposits (IsOne text d.id))
          (OfDeposits (IsSettled text))
          (credit_account_and_record o d)
    unfolding credit_account_and_record
    credit-Ends =
        Ends-behind _ _ (Keeps-get_by_id_locked (IsOne text d.id) d.account_id) (λ account.
          Ends-behind _ _ (Leads-attempt _ (Keeps-convert (λ s cache h. h) _ _ _ _ _))
            (after_conversion-Ends account))

    settle-Ends :
        (success : Bool) (reason : Json)
        → Ends
            (OfDeposits (IsOne text d.id))
            (OfDeposits (IsSettled text))
            (settle_deposit o success reason d)
    unfolding settle_deposit
    settle-Ends success reason = Ends-if success _ _ credit-Ends (fail-Ends reason)

Once-with_pending :
    (reference : Json) (act : Deposit → Action (Unit {0}))
    → ((text : Str) (d : Deposit)
        → Ends (OfDeposits (IsOne text d.id)) (OfDeposits (IsSettled text)) (act d))
    → Once (with_pending reference act)
unfolding with_pending get_by_external_reference
Once-with_pending reference act ends = Once-if _ _ _ Once-pure (
    Once-lift _ _ (λ text.
      Once-look_up (λ s. select (has_reference text) s.deposits) (λ d. is_pending_deposit d.status)
        act (λ d. record { at = λ s h. (ends text d).at s (d, h, refl) })))

-- An event that no deposit waits for.
Once-with_pending_idle :
    (reference : Json) (act : Deposit → Action (Unit {0}))
    → ((d : Deposit) (s : Db) → act d s ≡ (ok tt, s))
    → Once (with_pending reference act)
unfolding with_pending get_by_external_reference
Once-with_pending_idle reference act idle = Once-if _ _ _ Once-pure (
    Once-lift _ _ (λ text.
      Once-idle (λ s. select (has_reference text) s.deposits) (λ d. is_pending_deposit d.status) act
        idle))

module _ (o : Outside) where
  pub Once-stk : (payload : Json) → Once (handle_mpesa_stk_callback o payload)
  unfolding handle_mpesa_stk_callback
  Once-stk payload = search (Once-lift, Once-with_pending, settle-Ends) depth 12

  pub Once-airtel : (payload : Json) → Once (handle_airtel_collection_callback o payload)
  unfolding handle_airtel_collection_callback
  Once-airtel payload = search (Once-lift, Once-with_pending, settle-Ends) depth 12

  Once-on_event :
      (id event_type pi_data : Json) → Once (with_pending id (on_event o event_type pi_data))
  unfolding on_event with_pending pure
  Once-on_event id event_type pi_data =
      elim (Bool-cases (is_str event_type (codes "payment_intent.succeeded"))) [
        | inl e ↦ rw e (Once-with_pending id _ (λ text d. credit-Ends text d o))
        | inr e ↦ elim (Bool-cases (is_str event_type (codes "payment_intent.payment_failed"))) [
          | inl f ↦
              rw (e, f)
                (Once-with_pending id _ (λ text d.
                  Ends-behind _ _ (Leads-lift (λ s h. h) _) (λ error.
                    Ends-behind _ _ (Leads-lift (λ s h. h) _) (λ reason. fail-Ends text d reason))))
          | inr f ↦ rw (e, f) (Once-with_pending_idle id _ (λ d s. refl))
        ]
      ]

  pub Once-stripe : (event : Json) → Once (handle_stripe_webhook_event o event)
  unfolding handle_stripe_webhook_event
  Once-stripe event = search (Once-lift, Once-on_event) depth 12

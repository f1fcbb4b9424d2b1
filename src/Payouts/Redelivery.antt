-- ===== src/Payouts/Redelivery.antt =====
-- Proofs about the callbacks of app/modules/payouts/service.py: a report that comes again.
use bridge_pay_backend.Common.{
  ℕ, ◌≡◌, ◌∙◌, ==_refl, refl, Bool, false, List, [], ◌∷◌, Option, none, some,
}
use bridge_pay_backend.Common.Table.{select, update, select-update}
use bridge_pay_backend.Common.Text.{Str}
use bridge_pay_backend.Json.{Json}
use bridge_pay_backend.Outside.{Outside}
use bridge_pay_backend.Schema.{
  is_pending, is_completed, Db, Payout, NotificationType, TransactionType, ReferenceNote, Decimal,
}
use bridge_pay_backend.Session.{Action, pure, modify, fresh_id, ◌>>=◌, ◌>>◌}
use bridge_pay_backend.Session.Ends.{
  Ends, Ends-Keeps, Ends-behind, Ends-bind, Ends-if, Ends-modify, Once, Once-pure, Once-lift,
  Once-if, Once-look_up,
}
use bridge_pay_backend.Session.Keeps.{Keeps, keeps_rules, Leads-modify, Leads-lift, Keeps-pure}
use bridge_pay_backend.Accounts.{get_by_id_locked, credit_row, add_transaction}
use bridge_pay_backend.Notifications.{notify}
use bridge_pay_backend.Payouts.{
  has_id, has_reference, get_by_external_reference, change, completed, reversed, mark_completed,
  mark_reversed,
}
use bridge_pay_backend.Payouts.Callbacks.{
  with_payout, awaits, was_sent, settle_payout, handle_mpesa_b2c_result,
  handle_airtel_disbursement_callback, handle_stripe_payout_failed_event,
}
use bridge_pay_backend.Payouts.Wallet.{reverse_deduction, complete}
use bridge_pay_backend.Users.{get_user}

abbrev Found : Str → Payout → Db → Type 0
Found text p s = select (has_reference text) s.payouts ≡ p ∷ []

-- The one payout of the reference does not pass the test any more.
abbrev Settled : Str → (Payout → Bool) → Db → Type 0
Settled text test s = (q : Payout) × Found text q s × (test q ≡ false)

-- What looks at the payouts alone does not see the rest of the work.
module _ (F : List Payout → Type 0) where
  abbrev OfPayouts : Db → Type 0
  OfPayouts s = F s.payouts

  Keeps-fresh_id : Keeps OfPayouts fresh_id
  unfolding fresh_id
  Keeps-fresh_id = record { at = λ s h. h }

  Keeps-elsewhere :
      (f : Db → Db) → ((s : Db) → F s.payouts → F (f s).payouts) → Keeps OfPayouts (modify f)
  Keeps-elsewhere f h = Leads-modify f h

  Keeps-get_user : (id : ℕ) → Keeps OfPayouts (get_user id)
  unfolding get_user
  Keeps-get_user id = search keeps_rules

  Keeps-get_by_id_locked : (id : ℕ) → Keeps OfPayouts (get_by_id_locked id)
  unfolding get_by_id_locked
  Keeps-get_by_id_locked id = search keeps_rules

  Keeps-notify :
      (id : ℕ) (type : NotificationType) (t : Option ℕ) → Keeps OfPayouts (notify id type t)
  unfolding notify
  Keeps-notify id type t = search (keeps_rules, Keeps-fresh_id, Keeps-elsewhere) depth 10

  Keeps-credit_row : (o : Outside) (id x : ℕ) → Keeps OfPayouts (modify (credit_row o id x))
  Keeps-credit_row o id x = Keeps-elsewhere _ (λ s h. h)

  Keeps-add_transaction :
      (o : Outside) (f t : Option ℕ) (x : Decimal) (cur : Str) (type : TransactionType)
      (why : ReferenceNote)
      → Keeps OfPayouts (add_transaction o f t x cur type why)
  unfolding add_transaction
  Keeps-add_transaction o f t x cur type why =
      search (keeps_rules, Keeps-fresh_id, Keeps-elsewhere) depth 10

  ruleset payouts_stay = (
    keeps_rules, Keeps-get_user, Keeps-get_by_id_locked, Keeps-notify, Keeps-credit_row,
    Keeps-add_transaction,
  )

  -- What follows the change of a payout, and what precedes a reversal's.
  Keeps-tell :
      {A : Type 0} (id : ℕ) (type : NotificationType) (t : Option ℕ) (a : A)
      → Keeps OfPayouts (get_user id >>= λ user. (notify id type t >> pure a))
  Keeps-tell id type t a = search payouts_stay depth 10

-- A change that leaves the reference changes the one row of the reference.
change-Ends :
    (text : Str) (test : Payout → Bool) (p : Payout) (f : Payout → Payout)
    → ((a : Payout) → has_reference text (f a) ≡ has_reference text a)
    → test (f p) ≡ false
    → Ends (Found text p) (Settled text test) (change f p)
unfolding change update
change-Ends text test p f keeps closed =
    Ends-bind _ _
      (Ends-modify _ (λ s h. (
        f p,
        select-update (has_reference text) (has_id p.id) f keeps s.payouts
            ∙ rw h (rw (==_refl p.id) refl),
        closed,
      )))
      (λ u. Ends-Keeps _ (λ s h. h) (Keeps-pure _))

abbrev IsSettled : Str → (Payout → Bool) → List Payout → Type 0
IsSettled text test ps = (q : Payout) × (select (has_reference text) ps ≡ q ∷ []) × (test q ≡ false)

module _ (o : Outside) (text : Str) where
  complete-Ends :
      (p : Payout) (t : Option ℕ) → Ends (Found text p) (Settled text awaits) (complete o p t)
  unfolding complete mark_completed completed awaits is_pending
  complete-Ends p t =
      Ends-bind _ _ (change-Ends text awaits p (completed o.now) (λ a. refl) refl)
        (λ q. Ends-Keeps _ (λ s h. h) (Keeps-tell (IsSettled text awaits) q.user_id _ t q))

  reverse-Ends :
      (test : Payout → Bool) (p : Payout) (reason : Json)
      → ((why : Option Str) → test (reversed why p) ≡ false)
      → Ends (Found text p) (Settled text test) (reverse_deduction o p reason)
  unfolding reverse_deduction mark_reversed reversed
  reverse-Ends test p reason closed =
      let found : List Payout → Type 0 = λ ps. select (has_reference text) ps ≡ p ∷ [] in
      Ends-behind _ _ (Keeps-get_by_id_locked found p.account_id) (λ account.
        Ends-behind _ _ (Keeps-credit_row found o account.id _) (λ u.
          Ends-behind _ _ (Keeps-add_transaction found o none (some account.id) _ _ _ _) (λ t.
            Ends-bind _ _
              (Ends-behind _ _ (Leads-lift (λ s h. h) _)
                (λ why. change-Ends text test p (reversed why) (λ a. refl) (closed why)))
              (λ q.
                Ends-Keeps _ (λ s h. h)
                  (Keeps-tell (IsSettled text test) p.user_id _ (some t.id) q)))))

  settle-Ends :
      (success : Bool) (reason : Json) (p : Payout)
      → Ends (Found text p) (Settled text awaits) (settle_payout o success reason p)
  unfolding settle_payout awaits is_pending reversed
  settle-Ends success reason p =
      Ends-if success _ _
        (Ends-bind _ _ (complete-Ends p p.transaction_id)
          (λ q. Ends-Keeps _ (λ s h. h) (Keeps-pure _)))
        (Ends-bind _ _ (reverse-Ends awaits p reason (λ why. refl))
          (λ q. Ends-Keeps _ (λ s h. h) (Keeps-pure _)))

Once-with_payout :
    (reference : Json) (test : Payout → Bool) (act : Payout → Action (Unit {0}))
    → ((text : Str) (p : Payout) → Ends (Found text p) (Settled text test) (act p))
    → Once (with_payout reference test act)
unfolding with_payout get_by_external_reference
Once-with_payout reference test act ends = Once-if _ _ _ Once-pure (
    Once-lift _ _
      (λ text. Once-look_up (λ s. select (has_reference text) s.payouts) test act (ends text)))

module _ (o : Outside) where
  pub Once-mpesa : (payload : Json) → Once (handle_mpesa_b2c_result o payload)
  unfolding handle_mpesa_b2c_result
  Once-mpesa payload = search (Once-lift, Once-with_payout, settle-Ends) depth 12

  pub Once-airtel : (payload : Json) → Once (handle_airtel_disbursement_callback o payload)
  unfolding handle_airtel_disbursement_callback
  Once-airtel payload = search (Once-lift, Once-with_payout, settle-Ends) depth 12

  pub Once-stripe : (event : Json) → Once (handle_stripe_payout_failed_event o event)
  unfolding handle_stripe_payout_failed_event was_sent reversed is_completed
  Once-stripe event = Once-lift _ _ (λ event_data. Once-lift _ _ (λ payout_data.
      Once-lift _ _ (λ id. Once-with_payout id was_sent _ (λ text p.
        Ends-behind _ _ (Leads-lift (λ s h. h) _) (λ reason.
          Ends-bind _ _ (reverse-Ends o text was_sent p reason (λ why. refl))
            (λ q. Ends-Keeps _ (λ s h. h) (Keeps-pure _)))))))

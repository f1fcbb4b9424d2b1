-- ===== src/Payouts/Lifecycle/Callbacks.antt =====
-- Proofs about app/modules/payouts/service.py: the life of payouts under what the providers report later.
use bridge_pay_backend.Common.{
  ◌≡◌, refl, arith, Bool, true, List, [], ◌∷◌, Option, none, some, if◌then◌else◌,
}
use bridge_pay_backend.Common.Table.{select}
use bridge_pay_backend.Common.Text.{Str}
use bridge_pay_backend.Json.{Json}
use bridge_pay_backend.Outside.{Outside}
use bridge_pay_backend.Payouts.{has_reference, get_by_external_reference}
use bridge_pay_backend.Payouts.Callbacks.{
  with_payout, awaits, was_sent, settle_payout, handle_mpesa_b2c_result,
  handle_airtel_disbursement_callback, handle_stripe_payout_failed_event,
}
use bridge_pay_backend.Payouts.Lifecycle.{is_reversible, may_become}
use bridge_pay_backend.Payouts.Lifecycle.Calls.{may_reverse}
use bridge_pay_backend.Payouts.Lifecycle.Rows.{Waits-found}
use bridge_pay_backend.Payouts.Lifecycle.Steps.{
  Of, With, IsLater, Leads-reverse_deduction, Leads-complete,
}
use bridge_pay_backend.Payouts.Wallet.{reverse_deduction}
use bridge_pay_backend.Schema.{Payout, PayoutStatus, Db, is_pending, is_completed}
use bridge_pay_backend.Session.{Action, pure, ◌>>=◌, ◌>>◌, scalar_one_or_none, option_case}
use bridge_pay_backend.Session.Gives.{Gives, Leads-given, Leads-post, Outcome}
use bridge_pay_backend.Session.Keeps.{
  Keeps, Leads, keeps_rules, Leads-bind, Leads-lift, Leads-pure, Leads-if, Leads-if_test, Leads-pre,
  Keeps-pure, Keeps-bind, Keeps-lift,
}

module _ (start : List Payout) where
  -- A payout that was found is the only one of its id.
  abbrev Found : Option Payout → Db → Type 0
  Found none s = Of (IsLater start) s
  Found (some p) s =
      Of (IsLater start) s
      × ((kind : PayoutStatus → Bool) → kind p.status ≡ true → With start p kind s)

  Found-rows :
      (reference : Str) (rows : List Payout) (s : Db)
      → select (has_reference reference) s.payouts ≡ rows
      → Of (IsLater start) s
      → Outcome Found (Of (IsLater start)) (scalar_one_or_none rows) s
  unfolding scalar_one_or_none
  Found-rows reference [] s e h = h
  Found-rows reference (p ∷ []) s e h =
      (h, λ kind w. (h, Waits-found (has_reference reference) kind p [] s.payouts e w h.0.1))
  Found-rows reference (p ∷ q ∷ rows) s e h = h

  Gives-get_by_external_reference :
      (reference : Str)
      → Gives (Of (IsLater start)) Found (Of (IsLater start)) (get_by_external_reference reference)
  unfolding get_by_external_reference ◌>>=◌
  Gives-get_by_external_reference reference = record {
    at = λ s h. Found-rows reference (select (has_reference reference) s.payouts) s refl h;
  }

  -- What is done with a payout that passes a test is right for its status.
  module _ (test : Payout → Bool) (kind : PayoutStatus → Bool)
      (tells : (p : Payout) → test p ≡ true → kind p.status ≡ true)
      (act : Payout → Action (Unit {0}))
      (acts : (p : Payout) → Leads (With start p kind) (Of (IsLater start)) (act p)) where
    Leads-Found :
        (found : Option Payout)
        → Leads
            (Found found)
            (Of (IsLater start))
            (option_case found (pure tt) (λ p. if test p then act p else pure tt))
    unfolding option_case
    Leads-Found none = Keeps-pure tt
    Leads-Found (some p) =
        Leads-if_test (test p) _ _ (λ e. Leads-pre _ (λ s h. h.1 kind (tells p e)) (acts p))
          (λ e. Leads-pure (λ s h. h.0) tt)

    Keeps-with_payout :
        (reference : Json) → Keeps (Of (IsLater start)) (with_payout reference test act)
    unfolding with_payout
    Keeps-with_payout reference = Leads-if _ _ _ (Keeps-pure tt) (
        Keeps-bind _ _ (Keeps-lift _)
          λ text. Leads-given _ _ (Gives-get_by_external_reference text) Leads-Found)

  awaits_pending : (p : Payout) → awaits p ≡ true → is_pending p.status ≡ true
  unfolding awaits
  awaits_pending p e = e

  sent_reversible : (p : Payout) → was_sent p ≡ true → is_reversible p.status ≡ true
  unfolding was_sent is_completed is_reversible may_become
  sent_reversible p e = ground arith

  module _ (o : Outside) where
    Leads-reversal :
        (p : Payout) (reason : Json)
        → Leads
            (With start p is_reversible)
            (Of (IsLater start))
            (reverse_deduction o p reason >> pure tt)
    Leads-reversal p reason =
        Leads-bind {R = Of (IsLater start)} (λ s h. h) _ _
          (Leads-post {R = With start p is_reversible} (λ s h. h.0) _
            (Leads-reverse_deduction start p o reason))
          (λ q. Keeps-pure tt)

    Leads-settle :
        (success : Bool) (reason : Json) (p : Payout)
        → Leads (With start p is_pending) (Of (IsLater start)) (settle_payout o success reason p)
    unfolding settle_payout
    Leads-settle success reason p =
        Leads-if success _ _
          (Leads-bind {R = Of (IsLater start)} (λ s h. h) _ _
            (Leads-post {R = With start p is_reversible} (λ s h. h.0) _
              (Leads-complete start p o p.transaction_id))
            (λ q. Keeps-pure tt))
          (Leads-pre _ (may_reverse start p) (Leads-reversal p reason))

    pub Keeps-handle_mpesa_b2c_result :
        (payload : Json) → Keeps (Of (IsLater start)) (handle_mpesa_b2c_result o payload)
    unfolding handle_mpesa_b2c_result
    Keeps-handle_mpesa_b2c_result payload =
        search (keeps_rules, Keeps-with_payout awaits is_pending awaits_pending, Leads-settle) depth
          8

    pub Keeps-handle_airtel_disbursement_callback :
        (payload : Json)
        → Keeps (Of (IsLater start)) (handle_airtel_disbursement_callback o payload)
    unfolding handle_airtel_disbursement_callback
    Keeps-handle_airtel_disbursement_callback payload =
        search (keeps_rules, Keeps-with_payout awaits is_pending awaits_pending, Leads-settle) depth
          8

    pub Keeps-handle_stripe_payout_failed_event :
        (event : Json) → Keeps (Of (IsLater start)) (handle_stripe_payout_failed_event o event)
    unfolding handle_stripe_payout_failed_event
    Keeps-handle_stripe_payout_failed_event event = Keeps-bind _ _ (Keeps-lift _) λ a.
        Keeps-bind _ _ (Keeps-lift _) λ b. Keeps-bind _ _ (Keeps-lift _) λ c.
          Keeps-with_payout was_sent is_reversible sent_reversible _
            (λ p.
              Leads-bind {R = With start p is_reversible} (λ s h. h.0) _ _ (Leads-lift (λ s h. h) _)
                (λ reason. Leads-reversal p reason))
            c

-- ===== src/Payouts/Lifecycle/Calls.antt =====
-- Proofs about app/modules/payouts/service.py: the life of payouts under the four ways to pay out, and under
-- what the providers report.
use bridge_pay_backend.Common.{
  ℕ, ◌≡◌, refl, arith, subst, Bool, Bool-cases, inl, inr, List, Option, none, some, if◌then◌else◌,
}
use bridge_pay_backend.Common.Text.{Str, too_long}
use bridge_pay_backend.Errors.{
  Error, Result, mpesa_request_failed, airtel_request_failed, runtime_error, http_error,
  stripe_error,
}
use bridge_pay_backend.Json.{Json, str}
use bridge_pay_backend.Outside.{Outside}
use bridge_pay_backend.Payouts.{create, set_external_reference, get_by_idempotency_key_for_user}
use bridge_pay_backend.Payouts.Lifecycle.{opened, is_reversible}
use bridge_pay_backend.Payouts.Lifecycle.Rows.{Waits-mono, Waits-new, All-below_suc, All-differ}
use bridge_pay_backend.Payouts.Lifecycle.Steps.{
  Of, With, IsLater, IsLaterWith, IsLaterWith-next, IsLater-next, Keeps-Of-deduct,
  Keeps-Of-fresh_id, Gives-set_external_reference, Leads-reverse_deduction, Leads-complete,
  pending_reversible,
}
use bridge_pay_backend.Payouts.Mobile.{
  find_existing, open_payout, reverse_mpesa, send_mpesa, create_mpesa_payout, reverse_airtel,
  send_airtel, create_airtel_payout,
}
use bridge_pay_backend.Payouts.Stripe.{
  PayoutResult, reverse_stripe, send_stripe, create_stripe_card_payout, create_bank_account_payout,
}
use bridge_pay_backend.Payouts.Wallet.{reverse_deduction, complete}
use bridge_pay_backend.Providers.{Reply}
use bridge_pay_backend.Schema.{Payout, Provider, Decimal, Db, User, is_pending}
use bridge_pay_backend.Session.{Action, raise, ◌>>=◌, ◌>>◌}
use bridge_pay_backend.Session.Gives.{
  Gives, Gives-bind, Gives-Leads, Gives-error, Leads-given, Leads-post, Leads-known, Leads-Gives,
}
use bridge_pay_backend.Session.Keeps.{
  Keeps, Leads, keeps_rules, Leads-bind, Leads-lift, Leads-if, Leads-catch, Leads-pre, Keeps-bind,
  Keeps-raise,
}

module _ (start : List Payout) where
  Gives-create :
      (o : Outside) (user_id account_id : ℕ) (provider : Provider) (to email : Str) (amount : ℕ)
      (currency : Str) (key : Option Str) (rate converted : Option Decimal) (t : Option ℕ)
      → Gives
          (Of (IsLater start))
          (λ p. With start p is_pending)
          (Of (IsLater start))
          (create o user_id account_id provider to email amount currency key rate converted t)
  unfolding create ◌>>=◌ is_pending
  Gives-create o user_id account_id provider to email amount currency key rate converted t =
      record {
        at = λ s h. elim (Bool-cases (too_long 255 to)) [
          | inl e ↦ rw e h
          | inr e ↦ rw e (
            (
              (
                (omega arith, All-below_suc s.next_id s.payouts h.0.0),
                (All-differ s.next_id s.payouts h.0.0, h.0.1),
              ),
              opened h.1,
            ),
            ((λ e. refl), Waits-new s.next_id is_pending s.payouts h.0.0),
          )
        ];
      }

  pub may_reverse : (p : Payout) (s : Db) → With start p is_pending s → With start p is_reversible s
  may_reverse p s h =
      (h.0, Waits-mono p.id is_pending is_reversible pending_reversible s.payouts h.1)

  Keeps-find_existing :
      (user_id : ℕ) (key : Option Str) → Keeps (Of (IsLater start)) (find_existing user_id key)
  unfolding find_existing get_by_idempotency_key_for_user
  Keeps-find_existing user_id none = search keeps_rules
  Keeps-find_existing user_id (some key) = search keeps_rules

  module _ (o : Outside) where
    -- A payout is opened pending, and what is done with it then may be undone.
    Keeps-opened :
        (user : User) (account_id : ℕ) (provider : Provider) (to email : Str) (amount : ℕ)
        (currency : Str) (key : Option Str) (send : Payout → Action Payout)
        → ((p : Payout) → Leads (With start p is_pending) (With start p is_reversible) (send p))
        → Keeps
            (Of (IsLater start))
            (open_payout o user account_id provider to email amount currency key >>= send)
    unfolding open_payout
    Keeps-opened user account_id provider to email amount currency key send k =
        Leads-given _ _
          (Gives-bind _ _
            (Gives-Leads {R = Of (IsLater start)} (λ s h. h) _
              (Keeps-Of-deduct (IsLater start) (IsLater-next start) o account_id amount currency))
            (λ d. Gives-create o user.id account_id provider to email amount currency key _ _ _))
          (λ p. Leads-post {R = With start p is_reversible} (λ s h. h.0) (send p) (k p))

    module _ (p : Payout) where
      Keeps-reversal :
          (reason : Json) (e : Error)
          → Keeps
              (With start p is_reversible)
              (reverse_deduction o p reason >> raise {A = Payout} e)
      Keeps-reversal reason e =
          Keeps-bind _ _ (Leads-reverse_deduction start p o reason) (λ q. Keeps-raise e)

      Keeps-reverse_mpesa : (e : Error) → Keeps (With start p is_reversible) (reverse_mpesa o p e)
      unfolding reverse_mpesa
      Keeps-reverse_mpesa (mpesa_request_failed e) = Keeps-reversal (str e) _
      Keeps-reverse_mpesa (runtime_error e) = Keeps-reversal (str e) _
      Keeps-reverse_mpesa (http_error e) = Keeps-reversal (str e) _
      Keeps-reverse_mpesa _ = Keeps-raise _

      Keeps-reverse_airtel : (e : Error) → Keeps (With start p is_reversible) (reverse_airtel o p e)
      unfolding reverse_airtel
      Keeps-reverse_airtel (airtel_request_failed e) = Keeps-reversal (str e) _
      Keeps-reverse_airtel (runtime_error e) = Keeps-reversal (str e) _
      Keeps-reverse_airtel (http_error e) = Keeps-reversal (str e) _
      Keeps-reverse_airtel _ = Keeps-raise _

      Keeps-reverse_stripe : (e : Error) → Keeps (With start p is_reversible) (reverse_stripe o p e)
      unfolding reverse_stripe
      Keeps-reverse_stripe (stripe_error e) = Keeps-reversal (str e) _
      Keeps-reverse_stripe _ = Keeps-raise _

      refer :
          (r : Str)
          → Leads
              (With start p is_pending)
              (With start p is_reversible)
              (set_external_reference p r)
      refer r =
          Leads-Gives _ (Gives-set_external_reference start p is_pending r)
            (λ q s h. may_reverse p s h.0) (may_reverse p)

      -- The provider's answer, then a reference; what fails is reversed.
      Leads-send_mpesa :
          (reply : Reply)
          → Leads (With start p is_pending) (With start p is_reversible) (send_mpesa o reply p)
      unfolding send_mpesa
      Leads-send_mpesa reply =
          Leads-catch _ _ (Leads-bind (may_reverse p) _ _ (Leads-lift (λ s h. h) _) refer)
            (λ s h. h) Keeps-reverse_mpesa

      Leads-send_airtel :
          (reply : Reply)
          → Leads (With start p is_pending) (With start p is_reversible) (send_airtel o reply p)
      unfolding send_airtel
      Leads-send_airtel reply =
          Leads-catch _ _
            (Leads-bind (may_reverse p) _ _
              (Keeps-Of-fresh_id (IsLaterWith start p.id is_pending)
                (IsLaterWith-next start p.id is_pending))
              λ id. Leads-bind (may_reverse p) _ _ (Leads-lift (λ s h. h) _) refer)
            (λ s h. h) Keeps-reverse_airtel

      -- Stripe's answer is the end of it.
      Leads-end_stripe :
          (failed : Bool) (reason : Json) (q : Payout)
          → q.id ≡ p.id
          → Leads
              (With start p is_pending)
              (With start p is_reversible)
              (if failed then reverse_deduction o q reason else complete o q q.transaction_id)
      Leads-end_stripe failed reason q e =
          subst
            (λ i.
              Leads (Of (IsLaterWith start i is_pending)) (Of (IsLaterWith start i is_reversible))
                (if failed then reverse_deduction o q reason else complete o q q.transaction_id))
            e
            (Leads-if failed _ _
              (Leads-pre _ (may_reverse q) (Leads-reverse_deduction start q o reason))
              (Leads-complete start q o q.transaction_id))

      Leads-send_stripe :
          (reply : Result PayoutResult) (reason : Str)
          → Leads
              (With start p is_pending)
              (With start p is_reversible)
              (send_stripe o reply reason p)
      unfolding send_stripe
      Leads-send_stripe reply reason =
          Leads-catch _ _
            (Leads-bind (may_reverse p) _ _ (Leads-lift (λ s h. h) _) λ r.
              Leads-given _ _
                (Gives-error (may_reverse p) _
                  (Gives-set_external_reference start p is_pending r.id))
                (λ q. Leads-known _ (Leads-end_stripe _ (str reason) q)))
            (λ s h. h) Keeps-reverse_stripe

    module _ (user : User) (account_id : ℕ) (to email : Str) (amount : ℕ) (key : Option Str) where
      pub Keeps-create_mpesa_payout :
          (reply : Reply)
          → Keeps
              (Of (IsLater start))
              (create_mpesa_payout o reply user account_id to email amount key)
      unfolding create_mpesa_payout
      Keeps-create_mpesa_payout reply =
          search (keeps_rules, Keeps-find_existing, Keeps-opened, Leads-send_mpesa)

      pub Keeps-create_airtel_payout :
          (reply : Reply)
          → Keeps
              (Of (IsLater start))
              (create_airtel_payout o reply user account_id to email amount key)
      unfolding create_airtel_payout
      Keeps-create_airtel_payout reply =
          search (keeps_rules, Keeps-find_existing, Keeps-opened, Leads-send_airtel)

      module _ (reply : Result PayoutResult) (currency : Str) where
        pub Keeps-create_stripe_card_payout :
            Keeps
              (Of (IsLater start))
              (create_stripe_card_payout o reply user account_id to email amount currency key)
        unfolding create_stripe_card_payout
        Keeps-create_stripe_card_payout =
            search (keeps_rules, Keeps-find_existing, Keeps-opened, Leads-send_stripe)

        pub Keeps-create_bank_account_payout :
            (country : Str)
            → Keeps (Of (IsLater start)) (
                create_bank_account_payout o reply user account_id to country email amount currency
                  key)
        unfolding create_bank_account_payout
        Keeps-create_bank_account_payout country =
            search (keeps_rules, Keeps-find_existing, Keeps-opened, Leads-send_stripe)

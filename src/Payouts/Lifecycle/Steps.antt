-- ===== src/Payouts/Lifecycle/Steps.antt =====
-- Proofs about app/modules/payouts/repository.py and service.py: what each step does to the life of a payout.
-- `F` is a property of the table of payouts and of the ids that are given; what works on other tables keeps it.
use bridge_pay_backend.Common.{
  ℕ, suc, ◌<◌, ◌≡◌, refl, arith, Bool, true, List, [], ◌∷◌, Option, some,
}
use bridge_pay_backend.Common.Table.{update}
use bridge_pay_backend.Common.Text.{Str}
use bridge_pay_backend.Core.Rates.{Feed, convert}
use bridge_pay_backend.Core.Rates.Cache.{Keeps-convert}
use bridge_pay_backend.Accounts.{get_by_id_locked, add_transaction}
use bridge_pay_backend.Json.{Json}
use bridge_pay_backend.Notifications.{notify}
use bridge_pay_backend.Outside.{Outside}
use bridge_pay_backend.Payouts.{
  has_id, change, completed, reversed, mark_completed, mark_reversed, set_external_reference,
}
use bridge_pay_backend.Payouts.Lifecycle.{
  may_become, Successor, Follows, IsKeyed, Waits, is_reversible,
}
use bridge_pay_backend.Payouts.Lifecycle.Rows.{
  Follows-update, All-update_id, Distinct-update, Waits-update, Grows, All-below_suc,
  may_become_refl,
}
use bridge_pay_backend.Payouts.Wallet.{deduct_balance_and_record, reverse_deduction, complete}
use bridge_pay_backend.Schema.{
  Payout, PayoutStatus, is_pending, Decimal, Db, NotificationType, TransactionType, ReferenceNote,
}
use bridge_pay_backend.Session.{modify, fresh_id, ◌>>=◌}
use bridge_pay_backend.Session.Gives.{Gives, Gives-bind, Gives-Leads}
use bridge_pay_backend.Session.Keeps.{
  Keeps, Leads, keeps_rules, Keeps-raise_if, Keeps-gets, Leads-modify, Leads-bind, Leads-lift,
  Keeps-pure, Keeps-bind,
}
use bridge_pay_backend.Users.{get_user}

module _ (F : List Payout → ℕ → Type 0) where
  abbrev pub Of : Db → Type 0
  Of s = F s.payouts s.next_id

  pub Keeps-Of_elsewhere : (f : Db → Db) → ((s : Db) → Of s → Of (f s)) → Keeps Of (modify f)
  Keeps-Of_elsewhere f h = Leads-modify f h

  pub Keeps-Of_rate :
      (now : ℕ) (feed : Feed) (x : ℕ) (f t : Str) → Keeps Of (convert now feed x f t)
  Keeps-Of_rate now feed x f t = Keeps-convert (λ s cache h. h) now feed x f t

  pub Keeps-Of_account : (id : ℕ) → Keeps Of (get_by_id_locked id)
  unfolding get_by_id_locked
  Keeps-Of_account id = search keeps_rules

  module _ (next : (ps : List Payout) (n : ℕ) → F ps n → F ps (suc n)) where
    pub Keeps-Of-fresh_id : Keeps Of fresh_id
    unfolding fresh_id
    Keeps-Of-fresh_id = record { at = λ s h. next s.payouts s.next_id h }

    pub Keeps-Of-add :
        (o : Outside) (from_id to_id : Option ℕ) (x : Decimal) (currency : Str)
        (type : TransactionType) (why : ReferenceNote)
        → Keeps Of (add_transaction o from_id to_id x currency type why)
    unfolding add_transaction
    Keeps-Of-add o from_id to_id x currency type why =
        search (keeps_rules, Keeps-Of-fresh_id, Keeps-Of_elsewhere) depth 10

    pub Keeps-Of-notify :
        (user_id : ℕ) (type : NotificationType) (t : Option ℕ) → Keeps Of (notify user_id type t)
    unfolding notify
    Keeps-Of-notify user_id type t =
        Keeps-bind _ _ Keeps-Of-fresh_id (λ id. Keeps-Of_elsewhere _ (λ s h. h))

    pub Keeps-Of-get_user : (user_id : ℕ) → Keeps Of (get_user user_id)
    unfolding get_user
    Keeps-Of-get_user user_id = search keeps_rules

    pub Keeps-Of-deduct :
        (o : Outside) (account_id amount : ℕ) (currency : Str)
        → Keeps Of (deduct_balance_and_record o account_id amount currency)
    unfolding deduct_balance_and_record get_by_id_locked add_transaction
    Keeps-Of-deduct o account_id amount currency =
        search (keeps_rules, Keeps-Of-fresh_id, Keeps-Of_elsewhere, Keeps-Of_rate) depth 20

sent : (st : PayoutStatus) → is_pending st ≡ true → may_become st PayoutStatus.completed ≡ true
unfolding is_pending may_become
sent st e = ground arith

sent_reversible : is_reversible PayoutStatus.completed ≡ true
unfolding is_reversible
sent_reversible = refl

sent_back : is_reversible PayoutStatus.reversed ≡ true
unfolding is_reversible
sent_back = refl

pub pending_reversible : (st : PayoutStatus) → is_pending st ≡ true → is_reversible st ≡ true
unfolding is_pending is_reversible may_become
pending_reversible st e = ground arith

module _ (start : List Payout) where
  -- The payouts of the start have followers, and ids are keys.
  abbrev pub IsLater : List Payout → ℕ → Type 0
  IsLater ps n = IsKeyed ps n × Follows start ps

  abbrev pub IsLaterWith : ℕ → (PayoutStatus → Bool) → List Payout → ℕ → Type 0
  IsLaterWith id kind ps n = IsLater ps n × Waits id kind ps

  pub IsLater-next : (ps : List Payout) (n : ℕ) → IsLater ps n → IsLater ps (suc n)
  IsLater-next ps n h = ((All-below_suc n ps h.0.0, h.0.1), h.1)

  module _ (id : ℕ) (kind : PayoutStatus → Bool) where
    pub IsLaterWith-next :
        (ps : List Payout) (n : ℕ) → IsLaterWith id kind ps n → IsLaterWith id kind ps (suc n)
    IsLaterWith-next ps n h = (IsLater-next ps n h.0, h.1)

    module _ (f : Payout → Payout)
        (grows : (q : Payout) → kind q.status ≡ true → Successor q (f q)) where
      Grows-Waits : (ps : List Payout) → Waits id kind ps → Grows id f ps
      Grows-Waits [] h = tt
      Grows-Waits (q ∷ ps) h = ((λ e. grows q (h.0 e)), Grows-Waits ps h.1)

      changed :
          (kind' : PayoutStatus → Bool)
          → ((q : Payout) → (f q).id ≡ q.id)
          → ((q : Payout) → kind q.status ≡ true → kind' (f q).status ≡ true)
          → (ps : List Payout) (n : ℕ) → IsLaterWith id kind ps n
          → IsLaterWith id kind' (update (has_id id) f ps) n
      changed kind' keeps turns ps n h = (
        (
          (All-update_id id f keeps (λ i. i < n) ps h.0.0.0, Distinct-update id f keeps ps h.0.0.1),
          Follows-update id f h.0.1 (Grows-Waits ps h.1),
        ),
        Waits-update id f keeps kind kind' turns ps h.1,
      )

  module _ (p : Payout) where
    -- The payout is known by its id, and is of a kind.
    abbrev pub With : (PayoutStatus → Bool) → Db → Type 0
    With kind = Of (IsLaterWith p.id kind)

    -- A change of the payout that its status allows.
    Leads-change :
        (kind kind' : PayoutStatus → Bool) (f : Payout → Payout)
        → ((q : Payout) → (f q).id ≡ q.id)
        → ((q : Payout) → kind q.status ≡ true → Successor q (f q))
        → ((q : Payout) → kind q.status ≡ true → kind' (f q).status ≡ true)
        → Leads (With kind) (With kind') (change f p)
    unfolding change
    Leads-change kind kind' f keeps grows turns =
        Leads-bind {R = With kind'} (λ s h. h) _ _
          (Leads-modify _
            (λ s h. changed p.id kind f grows kind' keeps turns s.payouts s.next_id h))
          (λ u. Keeps-pure _)

    Gives-referred :
        (kind : PayoutStatus → Bool) (r : Str)
        → Gives
            (With kind)
            (λ q s. With kind s × (q.id ≡ p.id))
            (With kind)
            (change (λ q. record q { external_reference = some r }) p)
    unfolding change ◌>>=◌
    Gives-referred kind r = record {
      at = λ s h. (
        changed p.id kind (λ q. record q { external_reference = some r })
            (λ q e. record { status = may_become_refl q.status; same = refl }) kind (λ q. refl)
            (λ q e. e) s.payouts s.next_id h,
        refl,
      );
    }

    pub Gives-set_external_reference :
        (kind : PayoutStatus → Bool) (r : Str)
        → Gives
            (With kind)
            (λ q s. With kind s × (q.id ≡ p.id))
            (With kind)
            (set_external_reference p r)
    unfolding set_external_reference
    Gives-set_external_reference kind r =
        Gives-bind _ _ (Gives-Leads {R = With kind} (λ s h. h) _ (Keeps-raise_if _ _)) λ u.
          Gives-bind _ _ (Gives-Leads {R = With kind} (λ s h. h) _ (Keeps-gets _)) λ rows.
            Gives-bind _ _ (Gives-Leads {R = With kind} (λ s h. h) _ (Keeps-raise_if _ _))
              λ v. Gives-referred kind r

    Leads-mark_completed :
        (o : Outside) → Leads (With is_pending) (With is_reversible) (mark_completed o p)
    unfolding mark_completed completed
    Leads-mark_completed o =
        Leads-change is_pending is_reversible _ (λ q. refl)
          (λ q e. record { status = sent q.status e; same = refl }) (λ q e. sent_reversible)

    Leads-mark_reversed :
        (reason : Json) → Leads (With is_reversible) (With is_reversible) (mark_reversed p reason)
    unfolding mark_reversed reversed is_reversible
    Leads-mark_reversed reason =
        Leads-bind {R = With is_reversible} (λ s h. h) _ _ (Leads-lift (λ s h. h) _)
          (λ why.
            Leads-change is_reversible is_reversible (reversed why) (λ q. refl)
              (λ q e. record { status = e; same = refl }) (λ q e. sent_back))

    module _ (kind : PayoutStatus → Bool) where
      elsewhere_rules_next :
          (ps : List Payout) (n : ℕ) → IsLaterWith p.id kind ps n → IsLaterWith p.id kind ps (suc n)
      elsewhere_rules_next = IsLaterWith-next p.id kind

    -- A reversal, of a payout that may be reversed.
    pub Leads-reverse_deduction :
        (o : Outside) (reason : Json) → Keeps (With is_reversible) (reverse_deduction o p reason)
    unfolding reverse_deduction
    Leads-reverse_deduction o reason =
        search
          (
            keeps_rules,
            Keeps-Of_account (IsLaterWith p.id is_reversible),
            Keeps-Of_elsewhere (IsLaterWith p.id is_reversible),
            Keeps-Of-add (IsLaterWith p.id is_reversible) (elsewhere_rules_next is_reversible),
            Leads-mark_reversed,
            Keeps-Of-get_user (IsLaterWith p.id is_reversible) (elsewhere_rules_next is_reversible),
            Keeps-Of-notify (IsLaterWith p.id is_reversible) (elsewhere_rules_next is_reversible),
          )
          depth 12

    -- A success, of a payout that is pending.
    pub Leads-complete :
        (o : Outside) (t : Option ℕ) → Leads (With is_pending) (With is_reversible) (complete o p t)
    unfolding complete
    Leads-complete o t =
        Leads-bind {R = With is_reversible} (λ s h. h) _ _ (Leads-mark_completed o)
          λ q. search (
            keeps_rules,
            Keeps-Of-get_user (IsLaterWith p.id is_reversible) (elsewhere_rules_next is_reversible),
            Keeps-Of-notify (IsLaterWith p.id is_reversible) (elsewhere_rules_next is_reversible),
          )

-- ===== src/Payouts/Lifecycle/Rows.antt =====
-- Proofs about the table of payouts: what a change of one payout does to it.
use bridge_pay_backend.Common.{
  ℕ, suc, ◌<◌, ◌≡◌, ◌∙◌, refl, ap, sym, subst, arith, Bool, true, false, List, [], ◌∷◌, ◌==◌,
  Bool-cases, inl, inr, if◌then◌else◌,
}
use bridge_pay_backend.Common.Table.{All, All-mono, All-select, update, select}
use bridge_pay_backend.Payouts.{has_id}
use bridge_pay_backend.Payouts.Lifecycle.{
  may_become, Successor, Follows, empty, later, opened, Distinct, Waits,
}
use bridge_pay_backend.Schema.{Payout, PayoutStatus}

pub may_become_refl : (a : PayoutStatus) → may_become a a ≡ true
unfolding may_become
may_become_refl PayoutStatus.pending = refl
may_become_refl PayoutStatus.completed = refl
may_become_refl PayoutStatus.failed = refl
may_become_refl PayoutStatus.reversed = refl

may_become_trans :
    (a b c : PayoutStatus) → may_become a b ≡ true → may_become b c ≡ true → may_become a c ≡ true
unfolding may_become
may_become_trans a b c h k = ground arith

pub Successor-refl : (p : Payout) → Successor p p
Successor-refl p = record { status = may_become_refl p.status; same = refl }

pub Successor-trans : (p q r : Payout) → Successor p q → Successor q r → Successor p r
Successor-trans p q r h k = record {
  status = may_become_trans p.status q.status r.status h.status k.status;
  same =
      k.same
      ∙ ap {A = Payout} {B = Payout}
          (λ (x : Payout). record x {
            status = r.status;
            external_reference = r.external_reference;
            failure_reason = r.failure_reason;
            completed_at = r.completed_at;
          })
          h.same;
}

pub Follows-refl : (ps : List Payout) → Follows ps ps
Follows-refl [] = empty
Follows-refl (p ∷ ps) = later (Successor-refl p) (Follows-refl ps)

module _ (id : ℕ) (f : Payout → Payout) where
  -- What a change by id must be for the rows of that id.
  abbrev pub Grows : List Payout → Type 0
  Grows qs = All (λ q. (q.id == id) ≡ true → Successor q (f q)) qs

  grown :
      (q : Payout)
      → ((q.id == id) ≡ true → Successor q (f q))
      → Successor q (if q.id == id then f q else q)
  grown q h = elim (Bool-cases (q.id == id)) [
    | inl e ↦ rw e (h e)
    | inr e ↦ rw e (Successor-refl q)
  ]

  pub Follows-update :
      {ps qs : List Payout} → Follows ps qs → Grows qs → Follows ps (update (has_id id) f qs)
  unfolding update
  Follows-update empty g = empty
  Follows-update (later h k) g =
      later (Successor-trans _ _ _ h (grown _ g.0)) (Follows-update k g.1)
  Follows-update (opened k) g = opened (Follows-update k g.1)

  module _ (keeps_id : (q : Payout) → (f q).id ≡ q.id) where
    same_id : (q : Payout) → (if q.id == id then f q else q).id ≡ q.id
    same_id q = elim (Bool-cases (q.id == id)) [ inl e ↦ rw e (keeps_id q) | inr e ↦ rw e refl ]

    pub All-update_id :
        (P : ℕ → Type 0) (qs : List Payout)
        → All (λ q. P q.id) qs
        → All (λ q. P q.id) (update (has_id id) f qs)
    unfolding update
    All-update_id P [] h = tt
    All-update_id P (q ∷ qs) h = (rw (same_id q) h.0, All-update_id P qs h.1)

    pub Distinct-update : (qs : List Payout) → Distinct qs → Distinct (update (has_id id) f qs)
    unfolding update
    Distinct-update [] h = tt
    Distinct-update (q ∷ qs) h =
        (rw (same_id q) (All-update_id (λ i. (i == q.id) ≡ false) qs h.0), Distinct-update qs h.1)

    pub Waits-update :
        (kind kind' : PayoutStatus → Bool)
        → ((q : Payout) → kind q.status ≡ true → kind' (f q).status ≡ true)
        → (qs : List Payout) → Waits id kind qs
        → Waits id kind' (update (has_id id) f qs)
    unfolding update
    Waits-update kind kind' turns [] h = tt
    Waits-update kind kind' turns (q ∷ qs) h = (
      elim (Bool-cases (q.id == id)) [
        | inl e ↦ rw e (λ k. turns q (h.0 e))
        | inr e ↦ rw e (λ k. absurd (cc))
      ],
      Waits-update kind kind' turns qs h.1,
    )

-- A new id waits for nothing yet.
pub Waits-new :
    (n : ℕ) (kind : PayoutStatus → Bool) (qs : List Payout)
    → All (λ q. q.id < n) qs
    → Waits n kind qs
Waits-new n kind [] h = tt
Waits-new n kind (q ∷ qs) h = ((λ e. absurd (ground arith)), Waits-new n kind qs h.1)

pub Waits-mono :
    (id : ℕ) (kind kind' : PayoutStatus → Bool)
    → ((st : PayoutStatus) → kind st ≡ true → kind' st ≡ true)
    → (qs : List Payout) → Waits id kind qs
    → Waits id kind' qs
Waits-mono id kind kind' turns qs h = All-mono _ _ (λ q k e. turns q.status (k e)) qs h

pub All-below_suc : (n : ℕ) (qs : List Payout) → All (λ q. q.id < n) qs → All (λ q. q.id < suc n) qs
All-below_suc n qs h = All-mono _ _ (λ q k. omega arith) qs h

pub All-differ :
    (n : ℕ) (qs : List Payout) → All (λ q. q.id < n) qs → All (λ q. (q.id == n) ≡ false) qs
All-differ n qs h = All-mono _ _ (λ q k. ground arith) qs h

unselected :
    (id : ℕ) (kind : PayoutStatus → Bool) (qs : List Payout)
    → All (λ q. (q.id == id) ≡ false) qs
    → Waits id kind qs
unselected id kind [] h = tt
unselected id kind (q ∷ qs) h = ((λ e. absurd (cc)), unselected id kind qs h.1)

-- A row that is found is the only one of its id.
pub Waits-found :
    (test : Payout → Bool) (kind : PayoutStatus → Bool) (p : Payout) (rest qs : List Payout)
    → select test qs ≡ p ∷ rest
    → kind p.status ≡ true
    → Distinct qs
    → Waits p.id kind qs
unfolding select
Waits-found test kind p rest [] e w h = cc
Waits-found test kind p rest (q ∷ qs) e w h = elim (Bool-cases (test q)) [
  | inl t ↦
      let e' = rw t at e in
      let same : p ≡ q = cc in
      subst (λ x. Waits x.id kind (q ∷ qs)) (sym same)
        ((λ k. subst (λ x. kind x.status ≡ true) same w), unselected q.id kind qs h.0)
  | inr t ↦
      let e' = rw t at e in
      let other = subst (All (λ r. (r.id == q.id) ≡ false)) e' (All-select _ test qs h.0) in
      ((λ k. absurd (ground (arith, other.0))), Waits-found test kind p rest qs e' w h.1)
]

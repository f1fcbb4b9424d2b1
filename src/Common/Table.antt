-- ===== src/Common/Table.antt =====
-- A database table as the list of its rows, newest first, with the queries of the repositories:
-- `select(...).where(...)`, `scalar_one_or_none` and the flush of a changed row.
use Prim.Native.Nat.{ℕ, zero, suc, ◌-◌, ◌*◌}
use mathlib.Core.Path.{◌≡◌, refl, ap}
use mathlib.Core.Bool.{Bool, true, false, ◌||◌}
use mathlib.Core.List.{List, [], ◌∷◌}
use native.Mathlib.Omega.{arith}
use mathlib.Core.Logic.{inl, inr}
use bridge_pay_backend.Common.Tests.{if◌then◌else◌, Bool-cases}

module _ {A : Type 0} where
  abbrev pub length : List A → ℕ
  length [] = 0
  length (x ∷ xs) = suc (length xs)

  -- `any(test(r) for r in t)`
  unfoldable pub any : (A → Bool) → List A → Bool
  any q [] = false
  any q (r ∷ t) = q r || any q t

  unfoldable pub take : ℕ → List A → List A
  take zero t = []
  take (suc n) [] = []
  take (suc n) (r ∷ t) = r ∷ take n t

  unfoldable pub drop : ℕ → List A → List A
  drop zero t = t
  drop (suc n) [] = []
  drop (suc n) (r ∷ t) = drop n t

  -- `.offset((page - 1) * page_size).limit(page_size)`, with pages from 1 on
  unfoldable pub paginate : ℕ → ℕ → List A → List A
  unfolding take drop
  paginate page page_size t = take page_size (drop ((page - 1) * page_size) t)

  unfoldable pub select : (A → Bool) → List A → List A
  select q [] = []
  select q (r ∷ t) = let rest = select q t in if q r then r ∷ rest else rest

  -- The rows that a test picks are changed, the others stay.
  unfoldable pub update : (A → Bool) → (A → A) → List A → List A
  update p f [] = []
  update p f (r ∷ t) = (if p r then f r else r) ∷ update p f t

  -- An update that a query does not look at commutes with the query.
  pub select-update :
      (q p : A → Bool) (f : A → A)
      → ((a : A) → q (f a) ≡ q a)
      → (t : List A) → select q (update p f t) ≡ update p f (select q t)
  unfolding select update
  select-update q p f h [] = refl
  select-update q p f h (r ∷ t) = ground (arith, select-update q p f h t, h r)

  -- An update that a test does not look at does not change what the table has.
  pub any-update :
      (q p : A → Bool) (f : A → A)
      → ((a : A) → q (f a) ≡ q a)
      → (t : List A) → any q (update p f t) ≡ any q t
  unfolding any update
  any-update q p f h [] = refl
  any-update q p f h (r ∷ t) = ground (arith, any-update q p f h t, h r)

  -- What a query gives a row for, the table has.
  pub any_of_select :
      (q : A → Bool) (a : A) (rest t : List A) → select q t ≡ a ∷ rest → any q t ≡ true
  unfolding any select
  any_of_select q a rest [] e = cc
  any_of_select q a rest (r ∷ t) e = ground (arith, any_of_select q a rest t)

  -- Rows that a query does not select are changed behind its back.
  pub select-update_other :
      (q p : A → Bool) (f : A → A)
      → ((a : A) → q (f a) ≡ q a)
      → ((a : A) → q a ≡ true → p a ≡ false)
      → (t : List A) → select q (update p f t) ≡ select q t
  unfolding select update
  select-update_other q p f h d [] = refl
  select-update_other q p f h d (r ∷ t) = ground (arith, select-update_other q p f h d t, h r, d r)

  pub length-update : (p : A → Bool) (f : A → A) (t : List A) → length (update p f t) ≡ length t
  unfolding update
  length-update p f [] = refl
  length-update p f (r ∷ t) = ap suc (length-update p f t)

abbrev pub All : {A : Type 0} → (A → Type 0) → List A → Type 0
All P [] = Unit
All P (r ∷ t) = P r × All P t

module _ {A : Type 0} where
  -- What holds of a changed row if it held before with `R`, and of an unchanged one if it held before,
  -- holds after an update.
  pub All-update :
      (P Q R : A → Type 0) (q : A → Bool) (f : A → A)
      → ((a : A) → q a ≡ true → P a → R a → Q (f a))
      → ((a : A) → q a ≡ false → P a → Q a)
      → (t : List A) → All P t
      → All R (select q t)
      → All Q (update q f t)
  unfolding select update
  All-update P Q R q f hit miss [] h k = tt
  All-update P Q R q f hit miss (r ∷ t) h k = elim (Bool-cases (q r)) [
    | inl e ↦
        let k' = rw e at k in rw e (hit r e h.0 k'.0, All-update P Q R q f hit miss t h.1 k'.1)
    | inr e ↦ let k' = rw e at k in rw e (miss r e h.0, All-update P Q R q f hit miss t h.1 k')
  ]

  pub All-mono : (P Q : A → Type 0) → ((a : A) → P a → Q a) → (t : List A) → All P t → All Q t
  All-mono P Q f [] h = tt
  All-mono P Q f (r ∷ t) h = (f r h.0, All-mono P Q f t h.1)

  pub All-Unit : (t : List A) → All (λ a. Unit {0}) t
  All-Unit [] = tt
  All-Unit (r ∷ t) = (tt, All-Unit t)

  pub All-select : (P : A → Type 0) (q : A → Bool) (t : List A) → All P t → All P (select q t)
  unfolding select
  All-select P q [] h = tt
  All-select P q (r ∷ t) h = elim (Bool-cases (q r)) [
    | inl e ↦ rw e (h.0, All-select P q t h.1)
    | inr e ↦ rw e (All-select P q t h.1)
  ]

  -- A selected row passes the test.
  pub All-passes : (q : A → Bool) (t : List A) → All (λ a. q a ≡ true) (select q t)
  unfolding select
  All-passes q [] = tt
  All-passes q (r ∷ t) = elim (Bool-cases (q r)) [
    | inl e ↦ rw (e, select) (e, All-passes q t)
    | inr e ↦ rw (e, select) (All-passes q t)
  ]

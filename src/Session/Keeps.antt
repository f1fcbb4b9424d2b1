-- ===== src/Session/Keeps.antt =====
-- Invariants of actions: one rule for each way in which an action is built. `P` may be any
-- property of the state that no rule needs to look into.
use bridge_pay_backend.Common.{
  ◌≡◌, refl, Bool, true, false, List, [], ◌∷◌, Option, none, some, if◌then◌else◌, Bool-cases, inl,
  inr,
}
use bridge_pay_backend.Errors.{Error, Result, ok, err}
use bridge_pay_backend.Schema.{Db}
use bridge_pay_backend.Session.{
  Action, pure, raise, lift, gets, ◌>>=◌, raise_if, modify, option_case, continue, recover, catch,
  rollback, close, endpoint, attempt, scalar_one,
}

-- Whether the action returns or raises, `Q` holds after it if `P` held before.
pub record Leads {A : Type 0} (P Q : Db → Type 0) (m : Action A) : Type 0 where
  pub at : (s : Db) → P s → Q (m s).1

abbrev pub Keeps : {A : Type 0} → (Db → Type 0) → Action A → Type 0
Keeps P m = Leads P P m

module _ {A : Type 0} {P Q : Db → Type 0} (weaken : (s : Db) → P s → Q s) where
  pub Leads-pure : (a : A) → Leads P Q (pure a)
  unfolding pure
  Leads-pure a = record { at = weaken }

  pub Leads-raise : (e : Error) → Leads P Q (raise {A = A} e)
  unfolding raise
  Leads-raise e = record { at = weaken }

  pub Leads-lift : (r : Result A) → Leads P Q (lift r)
  unfolding lift
  Leads-lift r = record { at = weaken }

  pub Leads-gets : (f : Db → A) → Leads P Q (gets f)
  unfolding gets
  Leads-gets f = record { at = weaken }

module _ {A : Type 0} {P Q : Db → Type 0} where
  pub Leads-if :
      (b : Bool) (m n : Action A) → Leads P Q m → Leads P Q n → Leads P Q (if b then m else n)
  Leads-if true m n km kn = km
  Leads-if false m n km kn = kn

  -- The same where each branch may use its test.
  pub Leads-if_test :
      (b : Bool) (m n : Action A)
      → (b ≡ true → Leads P Q m)
      → (b ≡ false → Leads P Q n)
      → Leads P Q (if b then m else n)
  Leads-if_test true m n km kn = km refl
  Leads-if_test false m n km kn = kn refl

  pub Leads-option_case :
      {B : Type 0} (o : Option B) (m : Action A) (n : B → Action A)
      → Leads P Q m
      → ((b : B) → Leads P Q (n b))
      → Leads P Q (option_case o m n)
  unfolding option_case
  Leads-option_case none m n km kn = km
  Leads-option_case (some b) m n km kn = kn b

pub Leads-pre :
    {A : Type 0} {P R Q : Db → Type 0} (m : Action A)
    → ((s : Db) → P s → R s)
    → Leads R Q m
    → Leads P Q m
Leads-pre m f k = record { at = λ s h. k.at s (f s h) }

module _ {P Q : Db → Type 0} where
  pub Leads-modify : (f : Db → Db) → ((s : Db) → P s → Q (f s)) → Leads P Q (modify f)
  unfolding modify
  Leads-modify f h = record { at = h }

module _ {A B : Type 0} {R Q : Db → Type 0} (weaken : (s : Db) → R s → Q s) where
  Leads-continue :
      (r : Result A) (f : A → Action B) → ((a : A) → Leads R Q (f a)) → Leads R Q (continue r f)
  unfolding continue
  Leads-continue (ok a) f kf = record { at = λ s h. (kf a).at s h }
  Leads-continue (err e) f kf = record { at = weaken }

  pub Leads-bind :
      {P : Db → Type 0} (m : Action A) (f : A → Action B)
      → Leads P R m
      → ((a : A) → Leads R Q (f a))
      → Leads P Q (m >>= f)
  unfolding ◌>>=◌
  Leads-bind m f km kf = record {
    at = λ s h. let (r, s') = m s in (Leads-continue r f kf).at s' (km.at s h);
  }

Leads-recover :
    {A : Type 0} {R Q : Db → Type 0}
    → ((s : Db) → R s → Q s)
    → (r : Result A) (handler : Error → Action A) → ((e : Error) → Leads R Q (handler e))
    → Leads R Q (recover r handler)
unfolding recover
Leads-recover weaken (ok a) handler kh = record { at = weaken }
Leads-recover weaken (err e) handler kh = record { at = (kh e).at }

module _ {A : Type 0} {P Q : Db → Type 0} where
  -- Behind a guard its test has failed.
  pub Leads-guard :
      (c : Bool) (e : Error) (f : Unit {0} → Action A)
      → ((s : Db) → P s → Q s)
      → (c ≡ false → Leads P Q (f tt))
      → Leads P Q (raise_if c e >>= f)
  unfolding ◌>>=◌
  Leads-guard true e f weaken k = record { at = weaken }
  Leads-guard false e f weaken k = record { at = λ s h. (k refl).at s h }

  -- What a query found is known of the state behind it.
  pub Leads-query :
      {B : Type 0} (query : Db → B) (f : B → Action A)
      → ((b : B) → Leads (λ s. P s × (query s ≡ b)) Q (f b))
      → Leads P Q (gets query >>= f)
  unfolding ◌>>=◌
  Leads-query query f k = record { at = λ s h. (k (query s)).at s (h, refl) }

  pub Leads-scalar_one :
      {B : Type 0} (rows : List B) (f : B → Action A)
      → ((s : Db) → P s → Q s)
      → ((b : B) → rows ≡ b ∷ [] → Leads P Q (f b))
      → Leads P Q (lift (scalar_one rows) >>= f)
  unfolding ◌>>=◌ scalar_one
  Leads-scalar_one [] f weaken k = record { at = weaken }
  Leads-scalar_one (r ∷ []) f weaken k = record { at = λ s h. (k r refl).at s h }
  Leads-scalar_one (r ∷ q ∷ rows) f weaken k = record { at = weaken }

  pub Leads-catch :
      {R : Db → Type 0} (m : Action A) (handler : Error → Action A)
      → Leads P R m
      → ((s : Db) → R s → Q s)
      → ((e : Error) → Leads R Q (handler e))
      → Leads P Q (catch m handler)
  unfolding catch
  Leads-catch m handler km weaken kh = record {
    at = λ s h. let (r, s') = m s in (Leads-recover weaken r handler kh).at s' (km.at s h);
  }

pub Leads-attempt :
    {A : Type 0} {P Q : Db → Type 0} (m : Action A) → Leads P Q m → Leads P Q (attempt m)
unfolding attempt
Leads-attempt m km = record { at = λ s h. km.at s h }

-- A property that no rollback breaks.
module _ {A : Type 0} {P : Db → Type 0}
    (stable : (start s : Db) → P start → P (rollback start s)) where
  Keeps-close :
      (commits : Error → Bool) (start : Db) (r : Result A)
      → P start
      → Keeps P (close commits start r)
  unfolding close
  Keeps-close commits start (ok a) h = record { at = λ s k. k }
  Keeps-close commits start (err e) h = record {
    at = λ s k. elim (Bool-cases (commits e)) [ inl c ↦ rw c k | inr c ↦ rw c (stable start s h) ];
  }

  pub Keeps-endpoint :
      (commits : Error → Bool) (m : Action A) → Keeps P m → Keeps P (endpoint commits m)
  unfolding endpoint
  Keeps-endpoint commits m km = record {
    at = λ s h. let (r, s') = m s in (Keeps-close commits s r h).at s' (km.at s h);
  }

module _ {A : Type 0} {P : Db → Type 0} where
  pub Keeps-pure : (a : A) → Keeps P (pure a)
  Keeps-pure = Leads-pure (λ s h. h)

  pub Keeps-raise : (e : Error) → Keeps P (raise {A = A} e)
  Keeps-raise = Leads-raise (λ s h. h)

  pub Keeps-lift : (r : Result A) → Keeps P (lift r)
  Keeps-lift = Leads-lift (λ s h. h)

  pub Keeps-gets : (f : Db → A) → Keeps P (gets f)
  Keeps-gets = Leads-gets (λ s h. h)

  pub Keeps-bind :
      {B : Type 0} (m : Action B) (f : B → Action A)
      → Keeps P m
      → ((b : B) → Keeps P (f b))
      → Keeps P (m >>= f)
  Keeps-bind = Leads-bind (λ s h. h)

pub Keeps-raise_if : {P : Db → Type 0} (c : Bool) (e : Error) → Keeps P (raise_if c e)
unfolding raise_if
Keeps-raise_if c e = record { at = λ s h. h }

pub ruleset keeps_rules = (
  Keeps-pure, Keeps-raise, Keeps-lift, Keeps-gets, Keeps-raise_if, Keeps-bind, Leads-if,
  Leads-option_case,
)

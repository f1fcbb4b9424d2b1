-- ===== src/Session/Reads.antt =====
-- Actions that change nothing, what their results say of the state, and actions that change nothing if
-- they raise.
use bridge_pay_backend.Common.{
  ◌≡◌, refl, Bool, true, false, List, [], ◌∷◌, Option, none, some, if◌then◌else◌,
}
use bridge_pay_backend.Errors.{Error, Result, ok, err}
use bridge_pay_backend.Schema.{Db}
use bridge_pay_backend.Session.{
  Action, pure, raise, lift, gets, ◌>>=◌, raise_if, option_case, continue, scalar_one,
  scalar_one_or_none,
}
use bridge_pay_backend.Session.Keeps.{Leads}

abbrev pub OnOk : {A : Type 0} → (A → Type 0) → Result A → Type 0
OnOk P (ok a) = P a
OnOk P (err e) = Unit

-- The state stays, and a result that is returned has `P` in it.
pub record Reads {A : Type 0} (P : Db → A → Type 0) (m : Action A) : Type 0 where
  pub stays : (s : Db) → (m s).1 ≡ s
  pub result : (s : Db) → OnOk (P s) (m s).0

module _ {A : Type 0} where
  pub Reads-gets : (f : Db → A) → Reads (λ s a. f s ≡ a) (gets f)
  unfolding gets
  Reads-gets f = record { stays = λ s. refl; result = λ s. refl }

  Reads-lift_result : (r : Result A) → OnOk (λ a. r ≡ ok a) r
  Reads-lift_result (ok a) = refl
  Reads-lift_result (err e) = tt

  pub Reads-lift : (r : Result A) → Reads (λ s a. r ≡ ok a) (lift r)
  unfolding lift
  Reads-lift r = record { stays = λ s. refl; result = λ s. Reads-lift_result r }

module _ {A : Type 0} {P : Db → A → Type 0} where
  pub Reads-pure : (a : A) → ((s : Db) → P s a) → Reads P (pure a)
  unfolding pure
  Reads-pure a h = record { stays = λ s. refl; result = h }

  pub Reads-raise : (e : Error) → Reads P (raise e)
  unfolding raise
  Reads-raise e = record { stays = λ s. refl; result = λ s. tt }

  pub Reads-option_case :
      {B : Type 0} (b : Option B) (m : Action A) (n : B → Action A)
      → Reads P m
      → ((x : B) → Reads P (n x))
      → Reads P (option_case b m n)
  unfolding option_case
  Reads-option_case none m n km kn = km
  Reads-option_case (some x) m n km kn = kn x

  pub Reads-if : (b : Bool) (m n : Action A) → Reads P m → Reads P n → Reads P (if b then m else n)
  Reads-if true m n km kn = km
  Reads-if false m n km kn = kn

pub Reads-raise_if : (c : Bool) (e : Error) → Reads (λ s u. c ≡ false) (raise_if c e)
unfolding raise_if
Reads-raise_if true e = record { stays = λ s. refl; result = λ s. tt }
Reads-raise_if false e = record { stays = λ s. refl; result = λ s. refl }

module _ {A B : Type 0} {P : Db → A → Type 0} (m : Action A) (f : A → Action B) where
  Reads-continue_result :
      (R : Db → B → Type 0) (r : Result A) (s : Db)
      → OnOk (P s) r
      → ((a : A) → Reads (λ s b. P s a → R s b) (f a))
      → ((continue r f s).1 ≡ s) × OnOk (R s) (continue r f s).0
  unfolding continue
  Reads-continue_result R (ok a) s h k = ((k a).stays s, apply ((f a s).0) ((k a).result s))
    where
      apply : (r : Result B) → OnOk (λ b. P s a → R s b) r → OnOk (R s) r
      apply (ok b) g = g h
      apply (err e) g = tt
  Reads-continue_result R (err e) s h k = (refl, tt)

  pub Reads-bind :
      {R : Db → B → Type 0}
      → Reads P m
      → ((a : A) → Reads (λ s b. P s a → R s b) (f a))
      → Reads R (m >>= f)
  unfolding ◌>>=◌
  Reads-bind {R} km kf = record {
    stays = λ s. rw (km.stays s) (Reads-continue_result R (m s).0 s (km.result s) kf).0;
    result = λ s. rw (km.stays s) (Reads-continue_result R (m s).0 s (km.result s) kf).1;
  }

  Leads-read_continue :
      (R Q : Db → Type 0) (r : Result A) (s : Db)
      → R s
      → OnOk (P s) r
      → ((s : Db) → R s → Q s)
      → ((a : A) → Leads (λ s. R s × P s a) Q (f a))
      → Q (continue r f s).1
  unfolding continue
  Leads-read_continue R Q (ok a) s h p weaken k = (k a).at s (h, p)
  Leads-read_continue R Q (err e) s h p weaken k = weaken s h

  -- What a read found is known of the state behind it.
  pub Leads-read :
      {R Q : Db → Type 0}
      → Reads P m
      → ((s : Db) → R s → Q s)
      → ((a : A) → Leads (λ s. R s × P s a) Q (f a))
      → Leads R Q (m >>= f)
  unfolding ◌>>=◌
  Leads-read {R} {Q} km weaken kf = record {
    at = λ s h. rw (km.stays s) (Leads-read_continue R Q (m s).0 s h (km.result s) weaken kf);
  }

OnOk-imp :
    {A : Type 0} (P R : A → Type 0) (r : Result A) → ((a : A) → P a → R a) → OnOk P r → OnOk R r
OnOk-imp P R (ok a) f h = f a h
OnOk-imp P R (err e) f h = tt

pub Reads-imp :
    {A : Type 0} {P R : Db → A → Type 0} (m : Action A)
    → ((s : Db) (a : A) → P s a → R s a)
    → Reads P m
    → Reads R m
Reads-imp {P = P} {R = R} m f k = record {
  stays = k.stays;
  result = λ s. OnOk-imp (P s) (R s) (m s).0 (f s) (k.result s);
}

pub scalar_one_row : {A : Type 0} (rows : List A) (a : A) → scalar_one rows ≡ ok a → rows ≡ a ∷ []
unfolding scalar_one
scalar_one_row [] a h = cc
scalar_one_row (r ∷ []) a h = cc
scalar_one_row (r ∷ q ∷ rows) a h = cc

pub scalar_one_or_none_row :
    {A : Type 0} (rows : List A) (a : A) → scalar_one_or_none rows ≡ ok (some a) → rows ≡ a ∷ []
unfolding scalar_one_or_none
scalar_one_or_none_row [] a h = cc
scalar_one_or_none_row (r ∷ []) a h = cc
scalar_one_or_none_row (r ∷ q ∷ rows) a h = cc

-- An action that raises leaves the state as it was.
pub record Atomic {A : Type 0} (m : Action A) : Type 0 where
  pub at : (s : Db) (e : Error) → (m s).0 ≡ err e → (m s).1 ≡ s

module _ {A : Type 0} where
  pub Atomic-Reads : {P : Db → A → Type 0} (m : Action A) → Reads P m → Atomic m
  Atomic-Reads m k = record { at = λ s e h. k.stays s }

  pub Atomic-raise : (e : Error) → Atomic (raise {A = A} e)
  unfolding raise
  Atomic-raise e = record { at = λ s e' h. refl }

  pub Atomic-option_case :
      {B : Type 0} (b : Option B) (m : Action A) (n : B → Action A)
      → Atomic m
      → ((x : B) → Atomic (n x))
      → Atomic (option_case b m n)
  unfolding option_case
  Atomic-option_case none m n km kn = km
  Atomic-option_case (some x) m n km kn = kn x

  Atomic-continue :
      {B : Type 0} (r : Result B) (f : B → Action A)
      → ((b : B) → Atomic (f b))
      → Atomic (continue r f)
  unfolding continue
  Atomic-continue (ok b) f k = record { at = (k b).at }
  Atomic-continue (err e) f k = record { at = λ s e h. refl }

  pub Atomic-bind :
      {B : Type 0} {P : Db → B → Type 0} (m : Action B) (f : B → Action A)
      → Reads P m
      → ((b : B) → Atomic (f b))
      → Atomic (m >>= f)
  unfolding ◌>>=◌
  Atomic-bind m f km kf = record {
    at = λ s e h. rw (km.stays s) ((Atomic-continue (m s).0 f kf).at s e (rw (km.stays s) at h));
  }

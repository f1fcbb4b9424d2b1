-- ===== src/Session/Ends.antt =====
-- What an action that returns has brought about: nothing is said of one that raises.
use bridge_pay_backend.Common.{
  ◌≡◌, refl, Bool, true, false, List, [], ◌∷◌, Option, none, some, if◌then◌else◌, Bool-cases, inl,
  inr,
}
use bridge_pay_backend.Errors.{Error, Result, ok, err, multiple_results_found}
use bridge_pay_backend.Schema.{Db}
use bridge_pay_backend.Session.{
  Action, pure, raise, lift, gets, scalar_one_or_none, ◌>>=◌, modify, option_case, continue, close,
  endpoint,
}
use bridge_pay_backend.Session.Keeps.{Keeps}
use bridge_pay_backend.Session.Reads.{OnOk}

-- A run from `P` that returns ends in `Q`.
pub record Ends {A : Type 0} (P Q : Db → Type 0) (m : Action A) : Type 0 where
  pub at : (s : Db) → P s → OnOk (λ a. Q (m s).1) (m s).0

OnOk-all : {A : Type 0} (r : Result A) (T : Type 0) → T → OnOk (λ a. T) r
OnOk-all (ok a) T h = h
OnOk-all (err e) T h = tt

module _ {A : Type 0} {P Q : Db → Type 0} where
  pub Ends-Keeps : (m : Action A) → ((s : Db) → P s → Q s) → Keeps Q m → Ends P Q m
  Ends-Keeps m weaken k = record { at = λ s h. OnOk-all (m s).0 (Q (m s).1) (k.at s (weaken s h)) }

  pub Ends-raise : (e : Error) → Ends P Q (raise {A = A} e)
  unfolding raise
  Ends-raise e = record { at = λ s h. tt }

  pub Ends-option_case :
      {B : Type 0} (b : Option B) (m : Action A) (n : B → Action A)
      → Ends P Q m
      → ((x : B) → Ends P Q (n x))
      → Ends P Q (option_case b m n)
  unfolding option_case
  Ends-option_case none m n km kn = km
  Ends-option_case (some x) m n km kn = kn x

  pub Ends-if :
      (b : Bool) (m n : Action A) → Ends P Q m → Ends P Q n → Ends P Q (if b then m else n)
  Ends-if true m n km kn = km
  Ends-if false m n km kn = kn

module _ {A B : Type 0} {Q : Db → Type 0} (m : Action A) (f : A → Action B) where
  Ends-continue :
      (R : Db → Type 0) (r : Result A) (s : Db)
      → OnOk (λ a. R s) r
      → ((a : A) → Ends R Q (f a))
      → OnOk (λ b. Q (continue r f s).1) (continue r f s).0
  unfolding continue
  Ends-continue R (ok a) s h k = (k a).at s h
  Ends-continue R (err e) s h k = tt

  pub Ends-bind : {P R : Db → Type 0} → Ends P R m → ((a : A) → Ends R Q (f a)) → Ends P Q (m >>= f)
  unfolding ◌>>=◌
  Ends-bind {R = R} km kf = record { at = λ s h. Ends-continue R (m s).0 (m s).1 (km.at s h) kf }

  -- Behind a step that keeps what is known.
  pub Ends-behind : {P : Db → Type 0} → Keeps P m → ((a : A) → Ends P Q (f a)) → Ends P Q (m >>= f)
  Ends-behind {P} km kf = Ends-bind (Ends-Keeps {Q = P} m (λ s h. h) km) kf

-- The step that brings `Q` about.
pub Ends-modify :
    {P Q : Db → Type 0} (f : Db → Db) → ((s : Db) → P s → Q (f s)) → Ends P Q (modify f)
unfolding modify
Ends-modify f h = record { at = h }

-- A second run of an action that returned finds nothing left to do.
pub record Once (m : Action (Unit {0})) : Type 0 where
  pub at : (s s' : Db) → m s ≡ (ok tt, s') → m s' ≡ (ok tt, s')

pub Once-pure : Once (pure tt)
unfolding pure
Once-pure = record { at = λ s s' h. refl }

pub Once-if : (b : Bool) (m n : Action (Unit {0})) → Once m → Once n → Once (if b then m else n)
Once-if true m n km kn = km
Once-if false m n km kn = kn

-- What is computed from the request alone is computed again.
pub Once-lift :
    {A : Type 0} (r : Result A) (f : A → Action (Unit {0}))
    → ((a : A) → Once (f a))
    → Once (lift r >>= f)
unfolding ◌>>=◌
Once-lift (ok a) f k = k a
Once-lift (err e) f k = record { at = λ s s' h. cc }

-- What returned without a change returns so again.
pub once_of_stays :
    (m : Action (Unit {0})) (s s' : Db) → (m s).1 ≡ s → m s ≡ (ok tt, s') → m s' ≡ (ok tt, s')
once_of_stays m s s' stays h = cc

Once-close :
    (commits : Error → Bool) (start : Db) (r : Result (Unit {0})) (s s' : Db)
    → close commits start r s ≡ (ok tt, s')
    → (r ≡ ok tt) × (s ≡ s')
unfolding close
Once-close commits start (ok u) s s' h = (refl, cc)
Once-close commits start (err e) s s' h = cc

pub Once-endpoint :
    (commits : Error → Bool) (m : Action (Unit {0})) → Once m → Once (endpoint commits m)
unfolding endpoint close
Once-endpoint commits m k = record {
  at = λ s s' h. rw (k.at s s' (let e = Once-close commits s (m s).0 (m s).1 s' h in cc)) refl;
}

-- What is known behind a run that returned.
pub Ends_ok :
    {A : Type 0} {P Q : Db → Type 0} (m : Action A)
    → Ends P Q m
    → (s s' : Db) (a : A) → P s
    → m s ≡ (ok a, s')
    → Q s'
Ends_ok m k s s' a p h = rw h at (k.at s p)

-- A handler that looks its row up and acts on it, if the row passes a test.
module _ {A : Type 0} (rows : Db → List A) (test : A → Bool) (act : A → Action (Unit {0})) where
  abbrev look_up : Action (Unit {0})
  look_up = (gets rows >>= λ r. lift (scalar_one_or_none r)) >>= λ found.
      option_case found (pure tt) (λ a. if test a then act a else pure tt)

  -- If acting leaves one row that does not pass the test, acting is done once.
  pub Once-look_up :
      ((a : A)
        → Ends (λ s. rows s ≡ a ∷ []) (λ s. (b : A) × (rows s ≡ b ∷ []) × (test b ≡ false)) (act a))
      → Once look_up
  unfolding ◌>>=◌ scalar_one_or_none
  Once-look_up ends = record { at = λ s s' h. of_rows s s' (rows s) refl h }
    where
      of_rows :
          (s s' : Db) (r : List A) → rows s ≡ r → look_up s ≡ (ok tt, s') → look_up s' ≡ (ok tt, s')
      of_rows s s' [] e h = once_of_stays look_up s s' (rw e refl) h
      of_rows s s' (a ∷ []) e h = elim (Bool-cases (test a)) [
        | inl pass ↦
            let acted : act a s ≡ (ok tt, s') = rw (e, pass) at h in
            let (b, found, closed) = Ends_ok (act a) (ends a) s s' tt e acted in
            rw found (rw closed refl)
        | inr stop ↦ once_of_stays look_up s s' (rw (e, stop) refl) h
      ]
      of_rows s s' (a ∷ b ∷ r) e h =
          let failed : look_up s ≡ (err multiple_results_found, s) = rw e refl in cc

  -- Nor does it matter how often nothing is done.
  pub Once-idle : ((a : A) (s : Db) → act a s ≡ (ok tt, s)) → Once look_up
  unfolding ◌>>=◌ scalar_one_or_none
  Once-idle idle = record { at = λ s s' h. of_rows s s' (rows s) refl h }
    where
      of_rows :
          (s s' : Db) (r : List A) → rows s ≡ r → look_up s ≡ (ok tt, s') → look_up s' ≡ (ok tt, s')
      of_rows s s' [] e h = once_of_stays look_up s s' (rw e refl) h
      of_rows s s' (a ∷ []) e h = elim (Bool-cases (test a)) [
        | inl pass ↦ once_of_stays look_up s s' (rw (e, pass) (rw (idle a s) refl)) h
        | inr stop ↦ once_of_stays look_up s s' (rw (e, stop) refl) h
      ]
      of_rows s s' (a ∷ b ∷ r) e h =
          let failed : look_up s ≡ (err multiple_results_found, s) = rw e refl in cc

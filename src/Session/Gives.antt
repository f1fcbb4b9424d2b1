-- ===== src/Session/Gives.antt =====
-- What holds behind an action of the value that it gives, and behind an error.
use bridge_pay_backend.Errors.{Result, ok, err}
use bridge_pay_backend.Schema.{Db}
use bridge_pay_backend.Session.{Action, ◌>>=◌, continue}
use bridge_pay_backend.Session.Keeps.{Leads}

abbrev pub Outcome : {A : Type 0} → (A → Db → Type 0) → (Db → Type 0) → Result A → Db → Type 0
Outcome Q E (ok a) s = Q a s
Outcome Q E (err e) s = E s

pub record Gives {A : Type 0} (P : Db → Type 0) (Q : A → Db → Type 0) (E : Db → Type 0)
    (m : Action A) : Type 0 where
  pub at : (s : Db) → P s → Outcome Q E (m s).0 (m s).1

module _ {A B : Type 0} {Q : Db → Type 0} {Qa : A → Db → Type 0} where
  Leads-Outcome :
      (r : Result A) (f : A → Action B) (s : Db)
      → ((a : A) → Leads (Qa a) Q (f a))
      → Outcome Qa Q r s
      → Q (continue r f s).1
  unfolding continue
  Leads-Outcome (ok a) f s k h = (k a).at s h
  Leads-Outcome (err e) f s k h = h

  pub Leads-given :
      {P : Db → Type 0} (m : Action A) (f : A → Action B)
      → Gives P Qa Q m
      → ((a : A) → Leads (Qa a) Q (f a))
      → Leads P Q (m >>= f)
  unfolding ◌>>=◌
  Leads-given m f g k = record { at = λ s h. Leads-Outcome (m s).0 f (m s).1 k (g.at s h) }

module _ {A B : Type 0} {E : Db → Type 0} {Qa : A → Db → Type 0} {Qb : B → Db → Type 0} where
  Gives-Outcome :
      (r : Result A) (f : A → Action B) (s : Db)
      → ((a : A) → Gives (Qa a) Qb E (f a))
      → Outcome Qa E r s
      → Outcome Qb E (continue r f s).0 (continue r f s).1
  unfolding continue
  Gives-Outcome (ok a) f s k h = (k a).at s h
  Gives-Outcome (err e) f s k h = h

  pub Gives-bind :
      {P : Db → Type 0} (m : Action A) (f : A → Action B)
      → Gives P Qa E m
      → ((a : A) → Gives (Qa a) Qb E (f a))
      → Gives P Qb E (m >>= f)
  unfolding ◌>>=◌
  Gives-bind m f g k = record { at = λ s h. Gives-Outcome (m s).0 f (m s).1 k (g.at s h) }

module _ {A : Type 0} {R E : Db → Type 0} where
  Leads-any : (r : Result A) (s : Db) → ((s : Db) → R s → E s) → R s → Outcome (λ (a : A). R) E r s
  Leads-any (ok a) s weaken h = h
  Leads-any (err e) s weaken h = weaken s h

  -- What keeps a property gives it with any value.
  pub Gives-Leads :
      {P : Db → Type 0}
      → ((s : Db) → R s → E s)
      → (m : Action A) → Leads P R m
      → Gives P (λ a. R) E m
  Gives-Leads weaken m k = record { at = λ s h. Leads-any (m s).0 (m s).1 weaken (k.at s h) }

pub Leads-post :
    {A : Type 0} {P Q R : Db → Type 0}
    → ((s : Db) → R s → Q s)
    → (m : Action A) → Leads P R m
    → Leads P Q m
Leads-post weaken m k = record { at = λ s h. weaken (m s).1 (k.at s h) }

-- A fact of the value alone.
pub Leads-known :
    {A : Type 0} {P Q : Db → Type 0} {X : Type 0} (m : Action A)
    → (X → Leads P Q m)
    → Leads (λ s. P s × X) Q m
Leads-known m k = record { at = λ s h. (k h.1).at s h.0 }

module _ {A : Type 0} {E R : Db → Type 0} {Q : A → Db → Type 0} where
  either_way :
      (r : Result A) (s : Db)
      → ((a : A) (s : Db) → Q a s → R s)
      → ((s : Db) → E s → R s)
      → Outcome Q E r s
      → R s
  either_way (ok a) s f g h = f a s h
  either_way (err e) s f g h = g s h

  pub Leads-Gives :
      {P : Db → Type 0} (m : Action A)
      → Gives P Q E m
      → ((a : A) (s : Db) → Q a s → R s)
      → ((s : Db) → E s → R s)
      → Leads P R m
  Leads-Gives m k f g = record { at = λ s h. either_way (m s).0 (m s).1 f g (k.at s h) }

weaker_error :
    {A : Type 0} {E R : Db → Type 0} (Q : A → Db → Type 0) (r : Result A) (s : Db)
    → ((s : Db) → E s → R s)
    → Outcome Q E r s
    → Outcome Q R r s
weaker_error Q (ok a) s g h = h
weaker_error Q (err e) s g h = g s h

pub Gives-error :
    {A : Type 0} {P E R : Db → Type 0} {Q : A → Db → Type 0}
    → ((s : Db) → E s → R s)
    → (m : Action A) → Gives P Q E m
    → Gives P Q R m
Gives-error {Q} g m k = record { at = λ s h. weaker_error Q (m s).0 (m s).1 g (k.at s h) }

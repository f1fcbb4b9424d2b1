-- ===== src/Session.antt =====
-- A request's work on its database session: a function of the state that returns or raises.
-- What was written before a raise stays in the session, until the router commits or rolls back.
pub mod Keeps
pub mod Reads
pub mod Ends
pub mod Gives
use bridge_pay_backend.Common.{ℕ, suc, Bool, List, [], ◌∷◌, Option, none, some, if◌then◌else◌}
use bridge_pay_backend.Errors.{Error, Result, ok, err, no_result_found, multiple_results_found}
use bridge_pay_backend.Schema.{Db}

abbrev pub Action : Type 0 → Type 0
Action A = Db → Result A × Db

module _ {A : Type 0} where
  unfoldable pub pure : A → Action A
  pure a s = (ok a, s)

  unfoldable pub raise : Error → Action A
  raise e s = (err e, s)

  unfoldable pub lift : Result A → Action A
  lift r s = (r, s)

  unfoldable pub gets : (Db → A) → Action A
  gets f s = (ok (f s), s)

unfoldable pub raise_if : Bool → Error → Action (Unit {0})
raise_if c e s = (if c then err e else ok tt, s)

unfoldable pub modify : (Db → Db) → Action (Unit {0})
modify f s = (ok tt, f s)

-- `uuid.uuid4()`: an id that no row has.
unfoldable pub fresh_id : Action ℕ
fresh_id s = (ok s.next_id, record s { next_id = suc s.next_id })

-- `if x is None: ... else: ...`
unfoldable pub option_case : {A B : Type 0} → Option B → Action A → (B → Action A) → Action A
option_case none m n = m
option_case (some b) m n = n b

unfoldable pub continue : {A B : Type 0} → Result A → (A → Action B) → Action B
continue (ok a) f s = f a s
continue (err e) f s = (err e, s)

infixl 5 ◌>>=◌ ◌>>◌
-- Opening this opens every way to build an action.
unfoldable pub ◌>>=◌ : {A B : Type 0} → Action A → (A → Action B) → Action B
unfolding pure raise lift gets raise_if modify fresh_id option_case continue
◌>>=◌ m f s = let (r, s') = m s in continue r f s'

abbrev pub ◌>>◌ : {A B : Type 0} → Action A → Action B → Action B
m >> k = m >>= λ _. k

-- `result.scalar_one_or_none()` on the selected rows.
unfoldable pub scalar_one_or_none : {A : Type 0} → List A → Result (Option A)
scalar_one_or_none [] = ok none
scalar_one_or_none (r ∷ []) = ok (some r)
scalar_one_or_none (r ∷ _ ∷ _) = err multiple_results_found

-- `result.scalar_one()`
unfoldable pub scalar_one : {A : Type 0} → List A → Result A
scalar_one [] = err no_result_found
scalar_one (r ∷ []) = ok r
scalar_one (r ∷ _ ∷ _) = err multiple_results_found

-- `db.rollback()`, or a session that closes uncommitted: the tables are as they were, the process's
-- cache is not.
abbrev pub rollback : Db → Db → Db
rollback before after = record before { rate_cache = after.rate_cache }

unfoldable pub recover : {A : Type 0} → Result A → (Error → Action A) → Action A
recover (ok a) handler s = (ok a, s)
recover (err e) handler s = handler e s

-- `try: m` with `except` clauses; what they do not name the handler raises again.
unfoldable pub catch : {A : Type 0} → Action A → (Error → Action A) → Action A
unfolding recover
catch m handler s = let (r, s') = m s in recover r handler s'

unfoldable pub close : {A : Type 0} → (Error → Bool) → Db → Result A → Action A
close commits start (ok a) s = (ok a, s)
close commits start (err e) s = (err e, if commits e then s else rollback start s)

-- A route's session: `db.commit()` behind the action and in the `except` clauses of some errors; any
-- other error is followed by `db.rollback()`, or leaves the session to close uncommitted.
unfoldable pub endpoint : {A : Type 0} → (Error → Bool) → Action A → Action A
unfolding close
endpoint commits m s = let (r, s') = m s in close commits s r s'

-- `try: x = m` whose `except` clauses look at the error.
unfoldable pub attempt : {A : Type 0} → Action A → Action (Result A)
attempt m s = let (r, s') = m s in (ok r, s')

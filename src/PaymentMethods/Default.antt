-- ===== src/PaymentMethods/Default.antt =====
-- Proofs about app/modules/payment_methods: the default method of a user.
use bridge_pay_backend.Common.{
  ℕ, suc, ◌≡◌, ◌≤◌, refl, arith, Bool, true, false, ◌&&◌, not, List, [], ◌∷◌, ◌==◌, Option,
  Bool-cases, inl, inr, subst,
}
use bridge_pay_backend.Common.Table.{select, update, length}
use bridge_pay_backend.Common.Text.{Str}
use bridge_pay_backend.Core.Dependencies.{get_current_user}
use bridge_pay_backend.Errors.{Error, Result, stripe_error}
use bridge_pay_backend.PaymentMethods.{
  of_user, list_for_user, get_by_id_for_user, create, unset_default_for_user, delete, make_room,
  new_stripe_customer, ensure_stripe_customer, confirm_stripe_card, link_mpesa_number,
  forgive_stripe, delete_payment_method,
}
use bridge_pay_backend.PaymentMethods.Router.{
  as_user, confirm_stripe_card_link, link_mpesa, unlink_payment_method,
}
use bridge_pay_backend.Schema.{PaymentMethod, PaymentMethodType, Provider, User, Db}
use bridge_pay_backend.Session.{Action, modify, catch, ◌>>=◌}
use bridge_pay_backend.Session.Keeps.{
  Keeps, Leads, keeps_rules, Leads-modify, Leads-bind, Leads-if_test, Leads-pure, Keeps-pure,
  Keeps-raise, Keeps-bind, Keeps-endpoint, Leads-catch,
}
use bridge_pay_backend.Users

abbrev pub is_default_of : ℕ → PaymentMethod → Bool
is_default_of user_id m = of_user user_id m && m.is_default

-- Nobody has two default methods.
abbrev pub OneDefault : List PaymentMethod → Type 0
OneDefault ms = (user_id : ℕ) → length (select (is_default_of user_id) ms) ≤ 1

abbrev HasOneDefault : Db → Type 0
HasOneDefault s = OneDefault s.payment_methods

abbrev unset : PaymentMethod → PaymentMethod
unset m = record m { is_default = false }

unset_none :
    (id : ℕ) (ms : List PaymentMethod)
    → length (select (is_default_of id) (update (of_user id) unset ms)) ≡ 0
unfolding select update
unset_none id [] = refl
unset_none id (m ∷ ms) = ground (arith, unset_none id ms)

unset_fewer :
    (id other : ℕ) (ms : List PaymentMethod)
    → length (select (is_default_of other) (update (of_user id) unset ms))
      ≤ length (select (is_default_of other) ms)
unfolding select update
unset_fewer id other [] = omega arith
unset_fewer id other (m ∷ ms) = ground (arith, unset_fewer id other ms)

select_fewer :
    (q p : PaymentMethod → Bool) (ms : List PaymentMethod)
    → length (select q (select p ms)) ≤ length (select q ms)
unfolding select
select_fewer q p [] = omega arith
select_fewer q p (m ∷ ms) = elim (Bool-cases (p m)) [
  | inl e ↦ rw e (ground (arith, select_fewer q p ms))
  | inr e ↦ rw e (ground (arith, select_fewer q p ms))
]

pushed :
    (m : PaymentMethod) (ms : List PaymentMethod)
    → OneDefault ms
    → (m.is_default ≡ true → length (select (is_default_of m.user_id) ms) ≡ 0)
    → OneDefault (m ∷ ms)
unfolding select
pushed m ms one room id = elim (Bool-cases (is_default_of id m)) [
  | inl e ↦ rw e (new e)
  | inr e ↦ rw e (one id)
]
  where
    new : is_default_of id m ≡ true → suc (length (select (is_default_of id) ms)) ≤ 1
    new e =
        let same : m.user_id ≡ id = ground arith in
        let free =
          subst (λ i. length (select (is_default_of i) ms) ≡ 0) same (room (ground arith)) in
        omega (arith, free)

-- The user has no default method, if there is to be a new one.
abbrev HasRoom : Bool → ℕ → Db → Type 0
HasRoom b id s =
    HasOneDefault s × (b ≡ true → length (select (is_default_of id) s.payment_methods) ≡ 0)

Leads-make_room : (b : Bool) (id : ℕ) → Leads HasOneDefault (HasRoom b id) (make_room b id)
unfolding make_room unset_default_for_user
Leads-make_room b id =
    Leads-if_test b _ _
      (λ e. Leads-modify _ (λ s h. (
        λ other. omega (arith, unset_fewer id other s.payment_methods, h other),
        λ k. unset_none id s.payment_methods,
      )))
      (λ e. Leads-pure (λ s h. (h, λ k. cc)) tt)

Leads-create :
    (id : ℕ) (p : Provider) (type : PaymentMethodType) (reference : Str) (b : Bool)
    → Leads (HasRoom b id) HasOneDefault (create id p type reference b)
unfolding create ◌>>=◌
Leads-create id p type reference b = record { at = λ s h. pushed _ s.payment_methods h.0 h.1 }

Leads-added :
    (id : ℕ) (p : Provider) (type : PaymentMethodType) (reference : Str) (b : Bool)
    → Keeps HasOneDefault (make_room b id >>= λ u. create id p type reference b)
Leads-added id p type reference b =
    Leads-bind {R = HasRoom b id} (λ s h. h.0) _ _ (Leads-make_room b id)
      (λ u. Leads-create id p type reference b)

Keeps-elsewhere :
    (f : Db → Db)
    → ((s : Db) → OneDefault s.payment_methods → OneDefault (f s).payment_methods)
    → Keeps HasOneDefault (modify f)
Keeps-elsewhere f h = Leads-modify f h

Keeps-ensure_stripe_customer :
    (customer : Result Str) (user : User)
    → Keeps HasOneDefault (ensure_stripe_customer customer user)
unfolding ensure_stripe_customer new_stripe_customer
Keeps-ensure_stripe_customer customer user = search (keeps_rules, Keeps-elsewhere) depth 12

Keeps-forgive : (e : Error) → Keeps HasOneDefault (forgive_stripe e)
unfolding forgive_stripe
Keeps-forgive (stripe_error e) = Keeps-pure tt
Keeps-forgive _ = Keeps-raise _

Keeps-delete : (m : PaymentMethod) → Keeps HasOneDefault (delete m)
unfolding delete
Keeps-delete m = Keeps-elsewhere _ (λ s h id.
    omega
      (arith, select_fewer (is_default_of id) (λ n. not (n.id == m.id)) s.payment_methods, h id))

Keeps-caught :
    (detached : Action (Unit {0}))
    → Keeps HasOneDefault detached
    → Keeps HasOneDefault (catch detached forgive_stripe)
Keeps-caught detached k = Leads-catch _ _ k (λ s h. h) Keeps-forgive

Keeps-as_user :
    {A : Type 0} (subject : Option ℕ) (act : User → Action A)
    → ((user : User) → Keeps HasOneDefault (act user))
    → Keeps HasOneDefault (as_user subject act)
unfolding as_user get_current_user Users.get_by_id Users.find_one
Keeps-as_user subject act k =
    Keeps-endpoint (λ start s h. h) _ _ (Keeps-bind _ _ (search keeps_rules depth 12) k)

-- Linking a card or an M-Pesa number, as the default method or not, and unlinking a method leave every user
-- with at most one default method, whatever Stripe answers, if every user had at most one before.
pub methods-OneDefault :
    (subject id : Option ℕ) (customer : Result Str) (owner : Result (Option Str))
    (attached detached : Result (Unit {0})) (method phone : Str) (b : Bool) (s : Db)
    → OneDefault s.payment_methods
    → OneDefault
        (confirm_stripe_card_link subject customer owner attached method b s).1.payment_methods
      × OneDefault (link_mpesa subject phone b s).1.payment_methods
      × OneDefault (unlink_payment_method subject detached id s).1.payment_methods
unfolding confirm_stripe_card_link confirm_stripe_card link_mpesa link_mpesa_number list_for_user
    unlink_payment_method delete_payment_method get_by_id_for_user
methods-OneDefault subject id customer owner attached detached method phone b s h = (
  (Keeps-as_user subject _
        (λ user. search (keeps_rules, Keeps-ensure_stripe_customer, Leads-added) depth 12)).at
      s h,
  (Keeps-as_user subject _ (λ user. search (keeps_rules, Leads-added) depth 12)).at s h,
  (Keeps-as_user subject _ (λ user. search (keeps_rules, Keeps-delete, Keeps-caught) depth 12)).at s
      h,
)

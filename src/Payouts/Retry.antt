-- ===== src/Payouts/Retry.antt =====
-- Proofs about app/modules/payouts/service.py: a request that comes again under its idempotency key.
use bridge_pay_backend.Common.{
  ℕ, ◌≡◌, ◌∙◌, refl, ap, true, List, [], ◌∷◌, Option, some, if◌then◌else◌, subst, ==_refl,
}
use bridge_pay_backend.Common.Table.{select, update, select-update}
use bridge_pay_backend.Common.Text.{Str, codes, is_given, str_eq_refl}
use bridge_pay_backend.Errors.{Error, ok, mpesa_request_failed, runtime_error, http_error}
use bridge_pay_backend.Json.{Json, str}
use bridge_pay_backend.Outside.{Outside}
use bridge_pay_backend.Core.Phone.{normalize_mpesa}
use bridge_pay_backend.Providers.{Reply, checked_phone}
use bridge_pay_backend.Schema.{User, Payout, Db, Decimal, Provider}
use bridge_pay_backend.Session.{
  Action, pure, lift, ◌>>=◌, ◌>>◌, modify, fresh_id, option_case, scalar_one_or_none, raise,
}
use bridge_pay_backend.Session.Ends.{Ends, Ends-Keeps, Ends-behind, Ends-bind, Ends-modify, Ends_ok}
use bridge_pay_backend.Session.Keeps.{
  Keeps, keeps_rules, Keeps-raise_if, Leads-modify, Leads-catch, Leads-lift, Keeps-pure,
  Keeps-raise, Keeps-bind,
}
use bridge_pay_backend.Accounts.{get_by_id_locked, add_transaction}
use bridge_pay_backend.Core.Rates.{Feed, convert}
use bridge_pay_backend.Core.Rates.Cache.{Keeps-convert}
use bridge_pay_backend.Notifications.{notify}
use bridge_pay_backend.Payouts.{
  has_id, has_key, create, change, set_external_reference, mark_reversed, reversed,
  get_by_idempotency_key_for_user,
}
use bridge_pay_backend.Payouts.Mobile.{
  find_existing, open_payout, reverse_mpesa, send_mpesa, create_mpesa_payout,
}
use bridge_pay_backend.Payouts.Wallet.{deduct_balance_and_record, reverse_deduction}
use bridge_pay_backend.Users.{get_user}

module _ (user_id : ℕ) (key : Str) where
  abbrev IsNew : Db → Type 0
  IsNew s = select (has_key user_id key) s.payouts ≡ []

  -- One payout has the key.
  abbrev IsTaken : Db → Type 0
  IsTaken s = (p : Payout) × (select (has_key user_id key) s.payouts ≡ p ∷ [])

  module _ (F : List Payout → Type 0) where
    abbrev OfPayouts : Db → Type 0
    OfPayouts s = F s.payouts

    Keeps-fresh_id : Keeps OfPayouts fresh_id
    unfolding fresh_id
    Keeps-fresh_id = record { at = λ s h. h }

    Keeps-elsewhere :
        (f : Db → Db) → ((s : Db) → F s.payouts → F (f s).payouts) → Keeps OfPayouts (modify f)
    Keeps-elsewhere f h = Leads-modify f h

    Keeps-rate :
        (now : ℕ) (feed : Feed) (x : ℕ) (f t : Str) → Keeps OfPayouts (convert now feed x f t)
    Keeps-rate now feed x f t = Keeps-convert (λ s cache h. h) now feed x f t

    Keeps-deduct :
        (o : Outside) (account_id amount : ℕ) (currency : Str)
        → Keeps OfPayouts (deduct_balance_and_record o account_id amount currency)
    unfolding deduct_balance_and_record get_by_id_locked add_transaction
    Keeps-deduct o account_id amount currency =
        search (keeps_rules, Keeps-fresh_id, Keeps-elsewhere, Keeps-rate) depth 20

  -- A change that leaves the key leaves one payout with it.
  Keeps-change :
      (f : Payout → Payout) (p : Payout)
      → ((a : Payout) → has_key user_id key (f a) ≡ has_key user_id key a)
      → Keeps IsTaken (change f p)
  unfolding change update
  Keeps-change f p keeps =
      Keeps-bind _ _
        (Leads-modify _ (λ s h.
          let (q, row) = h in
          (
            if has_id p.id q then f q else q,
            select-update (has_key user_id key) (has_id p.id) f keeps s.payouts ∙ rw row refl,
          )))
        (λ u. Keeps-pure _)

  Keeps-reference :
      (p : Payout) (r : Str)
      → Keeps IsTaken (change (λ q. record q { external_reference = some r }) p)
  Keeps-reference p r = Keeps-change (λ q. record q { external_reference = some r }) p (λ a. refl)

  Keeps-set_external_reference : (p : Payout) (r : Str) → Keeps IsTaken (set_external_reference p r)
  unfolding set_external_reference
  Keeps-set_external_reference p r = search (keeps_rules, Keeps-reference) depth 12

  Keeps-mark_reversed : (p : Payout) (reason : Json) → Keeps IsTaken (mark_reversed p reason)
  unfolding mark_reversed reversed
  Keeps-mark_reversed p reason =
      Keeps-bind _ _ (Leads-lift (λ s h. h) _) (λ why. Keeps-change (reversed why) p (λ a. refl))

  Keeps-IsTaken_elsewhere :
      (f : Db → Db) → ((s : Db) → IsTaken s → IsTaken (f s)) → Keeps IsTaken (modify f)
  Keeps-IsTaken_elsewhere f h = Leads-modify f h

  Keeps-IsTaken-fresh_id : Keeps IsTaken fresh_id
  unfolding fresh_id
  Keeps-IsTaken-fresh_id = record { at = λ s h. h }

  Keeps-reverse_deduction :
      (o : Outside) (p : Payout) (reason : Json) → Keeps IsTaken (reverse_deduction o p reason)
  unfolding reverse_deduction get_by_id_locked add_transaction get_user notify
  Keeps-reverse_deduction o p reason =
      search (keeps_rules, Keeps-IsTaken-fresh_id, Keeps-IsTaken_elsewhere, Keeps-mark_reversed)
        depth 20

  Keeps-reversal :
      (o : Outside) (p : Payout) (reason : Json) (e : Error)
      → Keeps IsTaken (reverse_deduction o p reason >> raise {A = Payout} e)
  Keeps-reversal o p reason e =
      Keeps-bind _ _ (Keeps-reverse_deduction o p reason) (λ q. Keeps-raise e)

  Keeps-reverse_mpesa : (o : Outside) (p : Payout) (e : Error) → Keeps IsTaken (reverse_mpesa o p e)
  unfolding reverse_mpesa
  Keeps-reverse_mpesa o p (mpesa_request_failed e) = Keeps-reversal o p (str e) _
  Keeps-reverse_mpesa o p (runtime_error e) = Keeps-reversal o p (str e) _
  Keeps-reverse_mpesa o p (http_error e) = Keeps-reversal o p (str e) _
  Keeps-reverse_mpesa o p _ = Keeps-raise _

  Keeps-send_mpesa :
      (o : Outside) (reply : Reply) (p : Payout) → Keeps IsTaken (send_mpesa o reply p)
  unfolding send_mpesa
  Keeps-send_mpesa o reply p =
      Leads-catch _ _ (search (keeps_rules, Keeps-set_external_reference) depth 10) (λ s h. h)
        (Keeps-reverse_mpesa o p)

  push_new :
      (row : Payout) (ps : List Payout)
      → has_key user_id key row ≡ true
      → select (has_key user_id key) ps ≡ []
      → (p : Payout) × (select (has_key user_id key) (row ∷ ps) ≡ p ∷ [])
  unfolding select
  push_new row ps own none_yet = (row, rw own (rw none_yet refl))

  create-Ends :
      (o : Outside) (account_id : ℕ) (provider : Provider) (to email : Str) (amount : ℕ)
      (currency : Str) (rate converted : Option Decimal) (t : Option ℕ)
      → Ends IsNew IsTaken (
          create o user_id account_id provider to email amount currency (some key) rate converted t)
  unfolding create
  create-Ends o account_id provider to email amount currency rate converted t =
      Ends-behind _ _ (Keeps-raise_if {P = IsNew} _ _) (λ _.
        Ends-behind _ _ (Keeps-fresh_id (λ ps. select (has_key user_id key) ps ≡ [])) (λ id.
          Ends-bind _ _
            (Ends-modify _ (λ s h. push_new _ s.payouts (rw (==_refl user_id) (str_eq_refl key)) h))
            (λ u. Ends-Keeps _ (λ s h. h) (Keeps-pure _))))

  module _ (body : Action Payout) (ends : Ends IsNew IsTaken body) where
    abbrev asked : Action Payout → Action Payout
    asked act = find_existing user_id (some key) >>= λ existing. option_case existing act pure

    asked-IsTaken :
        (p : Payout) (s s' : Db)
        → is_given (some key) ≡ true
        → asked body s ≡ (ok p, s')
        → IsTaken s'
    unfolding find_existing get_by_idempotency_key_for_user ◌>>=◌ scalar_one_or_none
    asked-IsTaken p s s' given h = of_rows (select (has_key user_id key) s.payouts) refl
      where
        of_rows : (rows : List Payout) → select (has_key user_id key) s.payouts ≡ rows → IsTaken s'
        of_rows [] e = Ends_ok body ends s s' p e (rw (given, e) at h)
        of_rows (q ∷ []) e = let f = rw (given, e) at h in subst IsTaken (ap (λ r. r.1) f) (q, e)
        of_rows (q ∷ r ∷ rows) e = let f = rw (given, e) at h in cc

  -- Whatever would be done, the payout of the key is given back.
  asked_again :
      (act : Action Payout) (s : Db) (q : Payout)
      → is_given (some key) ≡ true
      → select (has_key user_id key) s.payouts ≡ q ∷ []
      → (find_existing user_id (some key) >>= λ existing. option_case existing act pure) s
        ≡ (ok q, s)
  unfolding find_existing get_by_idempotency_key_for_user ◌>>=◌ scalar_one_or_none
  asked_again act s q given row = rw (given, row) refl

  open_payout-Ends :
      (o : Outside) (user : User) (account_id : ℕ) (provider : Provider) (to email : Str)
      (amount : ℕ) (currency : Str)
      → user.id ≡ user_id
      → Ends IsNew IsTaken
          (open_payout o user account_id provider to email amount currency (some key))
  unfolding open_payout
  open_payout-Ends o user account_id provider to email amount currency own = rw own (
      Ends-behind _ _
        (Keeps-deduct (λ ps. select (has_key user_id key) ps ≡ []) o account_id amount currency)
        (λ d. create-Ends o account_id provider to email amount currency _ _ _))

module _ (o : Outside) (user : User) (key : Str) where
  body-Ends :
      (reply : Reply) (account_id : ℕ) (phone email : Str) (amount : ℕ)
      → Ends (IsNew user.id key) (IsTaken user.id key) (
          lift (checked_phone (normalize_mpesa phone)) >>= λ normalized.
          (open_payout o user account_id Provider.mpesa normalized email amount
              (codes "KES")
              (some key)
            >>= send_mpesa o reply))
  body-Ends reply account_id phone email amount =
      Ends-behind _ _ (Leads-lift (λ s h. h) _) (λ normalized.
        Ends-bind _ _
          (open_payout-Ends user.id key o user account_id Provider.mpesa normalized email amount
            (codes "KES") refl)
          (λ p. Ends-Keeps _ (λ s h. h) (Keeps-send_mpesa user.id key o reply p)))

  -- A payout to M-Pesa that went through under a key that is not empty is made once: a retry under the key,
  -- whatever else it says and whatever M-Pesa would answer, gives the stored payout and changes nothing.
  pub create_mpesa_payout_retried :
      (reply reply' : Reply) (account_id account_id' : ℕ) (phone phone' email email' : Str)
      (amount amount' : ℕ) (p : Payout) (s s' : Db)
      → is_given (some key) ≡ true
      → create_mpesa_payout o reply user account_id phone email amount (some key) s ≡ (ok p, s')
      → (q : Payout) × (select (has_key user.id key) s'.payouts ≡ q ∷ [])
        × (create_mpesa_payout o reply' user account_id' phone' email' amount' (some key) s'
            ≡ (ok q, s'))
  unfolding create_mpesa_payout
  create_mpesa_payout_retried reply reply' account_id account_id' phone phone' email email' amount
        amount' p s s' given h =
      let (q, row) =
        asked-IsTaken user.id key _ (body-Ends reply account_id phone email amount) p s s' given
          h in
      (q, row, asked_again user.id key _ s' q given row)

-- ===== src/Notifications/Inbox.antt =====
-- Proofs about app/modules/notifications: marking everything as read.
use bridge_pay_backend.Common.{
  ℕ, zero, suc, ◌-◌, ◌*◌, ◌≡◌, ◌≢◌, refl, true, not, ◌&&◌, List, [], ◌∷◌, arith,
}
use bridge_pay_backend.Common.Table.{select, update, paginate, take, drop, select-update_other}
use bridge_pay_backend.Errors.{ok}
use bridge_pay_backend.Schema.{Notification, Db}
use bridge_pay_backend.Session.{◌>>=◌}
use bridge_pay_backend.Notifications.{for_user, read, list_for_user, mark_all_read}

no_unread :
    (user_id : ℕ) (ns : List Notification)
    → select (λ n. for_user user_id n && not n.is_read) (update (for_user user_id) read ns) ≡ []
unfolding select update read
no_unread user_id [] = refl
no_unread user_id (n ∷ ns) = ground (arith, no_unread user_id ns)

module _ {A : Type 0} where
  drop_empty : (n : ℕ) → drop {A = A} n [] ≡ []
  unfolding drop
  drop_empty zero = refl
  drop_empty (suc n) = refl

  take_empty : (n : ℕ) → take {A = A} n [] ≡ []
  unfolding take
  take_empty zero = refl
  take_empty (suc n) = refl

  paginate_empty : (page page_size : ℕ) → paginate {A = A} page page_size [] ≡ []
  unfolding paginate
  paginate_empty page page_size = rw (drop_empty ((page - 1) * page_size)) (take_empty page_size)

-- Marking all of a user's notifications as read leaves the user none that is unread, and every other user's
-- notifications as they were.
pub mark_all_read_clears :
    (user_id page page_size : ℕ) (s : Db)
    → let s' = (mark_all_read user_id s).1 in
      (list_for_user user_id page page_size true s' ≡ (ok ([], 0), s'))
      × ((other : ℕ)
          → other ≢ user_id
          → select (for_user other) s'.notifications ≡ select (for_user other) s.notifications)
unfolding mark_all_read list_for_user read ◌>>=◌
mark_all_read_clears user_id page page_size s = (
  rw (no_unread user_id s.notifications) (rw (paginate_empty page page_size) refl),
  λ other ne.
      select-update_other (for_user other) (for_user user_id) read (λ n. refl) (λ n e. ground arith)
        s.notifications,
)

-- ===== src/Fnb/Handlers.antt =====
-- Every action on an order keeps what the changes of `Fnb.Changes` keep.
use mathlib.Core.Path.{subst}
use hotello_backend.Common.{ℕ, String, ◌≡◌, refl, sym, true, Option, none, some, Text, arith}
use hotello_backend.Store.{TypeOrm}
use hotello_backend.Model.People.{TenantUser}
use hotello_backend.Model.Stays.{Stay}
use hotello_backend.Model.Charges.{FnbOrder, FnbOrderStatus, FnbCancelReason}
use hotello_backend.Model.Effects.{AuditEntry, Metadata}
use hotello_backend.Exec.{World, Outcome, pure, gets, ◌>>=◌, ◌>>◌}
use hotello_backend.Exec.Keeps.{
  Keeps, Any, Keeps-pure, Keeps-gets, Keeps-bind, Keeps-then, Keeps-when, Keeps-from_option,
  Keeps-modify, Keeps-guard, guard-Keeps,
}
use hotello_backend.Exec.Safe.{Safe, Safe-then, Safe-modify, Safe-Holds, Keeps-before, Keeps-Safe}
use hotello_backend.Shared.{log, notify, notify_once}
use hotello_backend.Fnb.Orders
use hotello_backend.Fnb.Rows
use hotello_backend.Fnb.Orders.{
  find_order, assert_transition, save_order, notify_order_push, audit, resolve_assignee,
  notify_assignee, cancel_own, out_for_delivery, deliver, cancel,
}
use hotello_backend.Fnb.Rows.{is_open, is_new, may_move}
use hotello_backend.Fnb.Changes.{
  OrderTable, IsKept, Change, started, sent, delivered_by, cancelled_by, cancelled_own, assigned,
}

module _ (orm : TypeOrm) (J : OrderTable orm → Type 0) where
  abbrev pub OnOrders : World orm → Type 0
  OnOrders w = J w.orders

  pub log-Keeps : (e : AuditEntry) → Keeps OnOrders Any (log orm e)
  unfolding log
  log-Keeps e = Keeps-modify _ (λ w h. h)

  audit-Keeps :
      (action : String) (o : FnbOrder) (actor : TenantUser) (m : Metadata)
      → Keeps OnOrders Any (audit orm action o actor m)
  unfolding audit
  audit-Keeps action o actor m = log-Keeps _

  notify_order_push-Keeps : (o : FnbOrder) → Keeps OnOrders Any (notify_order_push orm o)
  unfolding notify_order_push notify notify_once
  notify_order_push-Keeps o =
      Keeps-bind {P = Any} _ _ (Keeps-gets _ (λ w h. tt)) λ lines _. Keeps-modify _ (λ w h. h)

  notify_assignee-Keeps :
      (user : TenantUser) (o : FnbOrder) (a : Option TenantUser)
      → Keeps OnOrders Any (notify_assignee orm user o a)
  unfolding notify_assignee notify notify_once
  notify_assignee-Keeps user o none = Keeps-pure tt tt
  notify_assignee-Keeps user o (some a) = Keeps-when _ _ (Keeps-modify _ (λ w h. h))

  resolve_assignee-Keeps :
      (hotel_id : ℕ) (id : Option ℕ) → Keeps OnOrders Any (resolve_assignee orm hotel_id id)
  unfolding resolve_assignee
  resolve_assignee-Keeps hotel_id none = Keeps-pure none tt
  resolve_assignee-Keeps hotel_id (some id) =
      Keeps-bind {P = Any} _ _ (Keeps-gets _ (λ w h. tt)) λ o _.
        Keeps-bind {P = Any} _ _ (Keeps-from_option _ o (λ a e. tt))
          λ u _. Keeps-then _ _ (guard-Keeps _ _) (Keeps-pure _ tt)

  -- what follows a save
  pub told :
      (action : String) (o : FnbOrder) (actor : TenantUser) (m : Metadata)
      → Keeps OnOrders Any (audit orm action o actor m >> (notify_order_push orm o >> pure o))
  told action o actor m =
      Keeps-then _ _ (audit-Keeps action o actor m)
        (Keeps-then _ _ (notify_order_push-Keeps o) (Keeps-pure o tt))

module _ (orm : TypeOrm) (J : OrderTable orm → Type 0) (kept : IsKept orm J) where
  abbrev Before : OrderTable orm → OrderTable orm → Type 0
  Before t x = (x ≡ t) × J t

  abbrev Handles : {A : Type 0} → (World orm → Outcome (World orm) A) → OrderTable orm → Type 0
  Handles m t = Safe (OnOrders orm (Before t)) (OnOrders orm J) (λ _. OnOrders orm J) m

  Before-holds : (t : OrderTable orm) (w : World orm) → OnOrders orm (Before t) w → OnOrders orm J w
  Before-holds t w h = subst J (sym h.0) h.1

  find_order-Keeps :
      (t : OrderTable orm) (hotel_id id : ℕ)
      → Keeps (OnOrders orm (Before t)) (λ o. orm.get t o.id ≡ some o) (find_order orm hotel_id id)
  unfolding find_order
  find_order-Keeps t hotel_id id =
      Keeps-bind {P = λ o. (s : FnbOrder) → o ≡ some s → orm.get t s.id ≡ some s} _ _
        (Keeps-gets _ (λ w h s e. (orm.find_one-some _ t s (rw h.0 at e)).0))
        λ o p. Keeps-from_option _ o p

  save_order-Safe :
      (t : OrderTable orm) (old next : FnbOrder)
      → orm.get t old.id ≡ some old
      → Change old next
      → Handles (save_order orm next) t
  unfolding save_order
  save_order-Safe t old next stored c =
      Safe-modify _
        (λ w h. subst (λ x. J (orm.save next x)) (sym h.0) (kept t old next stored c h.1))

  -- an action that moves the order along the transition map and tells the guest
  transition-Safe :
      (t : OrderTable orm) (old : FnbOrder) (target : FnbOrderStatus) (row : ℕ → FnbOrder)
      (action : String) (user : TenantUser) (m : ℕ → Metadata)
      → orm.get t old.id ≡ some old
      → ((now : ℕ) → may_move old.status target ≡ true → Change old (row now))
      → Handles
          (assert_transition orm old target
            >> (gets (λ (w : World orm). w.now) >>= λ now.
                save_order orm (row now)
                >> (audit orm action (row now) user (m now)
                    >> (notify_order_push orm (row now) >> pure (row now)))))
          t
  unfolding assert_transition
  transition-Safe t old target row action user m stored change =
      Keeps-before _ _ (Before-holds t) (Keeps-guard (may_move old.status target) _) λ _ ok.
        Keeps-before {P = Any} _ _ (Before-holds t) (Keeps-gets _ (λ w h. tt)) λ now _.
          Safe-then _ _ (save_order-Safe t old (row now) stored (change now ok))
            (Keeps-Safe _ (told orm J action (row now) user _))

  from_each :
      {A : Type 0} (m : World orm → Outcome (World orm) A)
      → ((t : OrderTable orm) → Handles m t)
      → Keeps (OnOrders orm J) Any m
  from_each m k = record { at = λ w h. Safe-Holds m (k w.orders) w (refl, h) }

  pub start-Keeps :
      (user : TenantUser) (id : ℕ) → Keeps (OnOrders orm J) Any (Orders.start orm user id)
  unfolding Orders.start
  start-Keeps user id = from_each _ λ t.
      Keeps-before _ _ (Before-holds t) (find_order-Keeps t _ _) λ o stored.
        transition-Safe t o _ (λ now. Rows.started_order now user.id o) _ user _ stored
          (λ now ok. started now user.id ok)

  pub out_for_delivery-Keeps :
      (user : TenantUser) (id : ℕ) → Keeps (OnOrders orm J) Any (out_for_delivery orm user id)
  unfolding out_for_delivery
  out_for_delivery-Keeps user id = from_each _ λ t.
      Keeps-before _ _ (Before-holds t) (find_order-Keeps t _ _) λ o stored.
        transition-Safe t o _ (λ now. Rows.sent_order now o) _ user _ stored (λ now ok. sent now ok)

  pub deliver-Keeps :
      (user : TenantUser) (id : ℕ) → Keeps (OnOrders orm J) Any (deliver orm user id)
  unfolding deliver
  deliver-Keeps user id = from_each _ λ t.
      Keeps-before _ _ (Before-holds t) (find_order-Keeps t _ _) λ o stored.
        transition-Safe t o _ (λ now. Rows.delivered_order now user.id o) _ user _ stored
          (λ now ok. delivered_by now user.id ok)

  pub cancel-Keeps :
      (user : TenantUser) (id : ℕ) (reason : FnbCancelReason) (memo : Option Text)
      → Keeps (OnOrders orm J) Any (cancel orm user id reason memo)
  unfolding cancel
  cancel-Keeps user id reason memo = from_each _ λ t.
      Keeps-before _ _ (Before-holds t) (find_order-Keeps t _ _) λ o stored.
        transition-Safe t o _ (λ now. Rows.cancelled_order now user.id reason _ o) _ user _ stored
          (λ now ok. cancelled_by now user.id reason _ ok)

  pub assign-Keeps :
      (user : TenantUser) (id : ℕ) (assignee_id : Option ℕ)
      → Keeps (OnOrders orm J) Any (Orders.assign orm user id assignee_id)
  unfolding Orders.assign
  assign-Keeps user id assignee_id = from_each _ λ t.
      Keeps-before _ _ (Before-holds t) (find_order-Keeps t _ _) λ o stored.
        Keeps-before _ _ (Before-holds t) (Keeps-guard (is_open o.status) _) λ _ ok.
          Keeps-before _ _ (Before-holds t) (resolve_assignee-Keeps orm (Before t) _ _) λ a _.
            Safe-then _ _ (save_order-Safe t o _ stored (assigned _ ok)) (
              Keeps-Safe _ (
                Keeps-then _ _ (audit-Keeps orm J _ _ _ _)
                  (Keeps-then _ _ (notify_assignee-Keeps orm J _ _ _) (Keeps-pure _ tt))))

  pub cancel_own-Keeps :
      (stay : Stay) (id : ℕ) → Keeps (OnOrders orm J) Any (cancel_own orm stay id)
  unfolding cancel_own
  cancel_own-Keeps stay id = from_each _ λ t.
      Keeps-before {P = λ o. (s : FnbOrder) → o ≡ some s → orm.get t s.id ≡ some s} _ _
        (Before-holds t) (Keeps-gets _ (λ w h s e. (orm.find_one-some _ t s (rw h.0 at e)).0))
        λ o p. Keeps-before _ _ (Before-holds t) (Keeps-from_option _ o p) λ order stored.
          Keeps-before _ _ (Before-holds t) (Keeps-guard (is_new order.status) _) λ _ ok.
            Keeps-before {P = Any} _ _ (Before-holds t) (Keeps-gets _ (λ w h. tt)) λ now _.
              Safe-then _ _ (save_order-Safe t order _ stored (cancelled_own now (ground arith)))
                (Keeps-Safe _ (Keeps-then _ _ (log-Keeps orm J _) (Keeps-pure _ tt)))

-- ===== src/Fnb/Reach.antt =====
-- The orders as a transition system: every call of src/modules/fnb and of src/modules/stay-settlement on
-- a stored order, in any order.
use mathlib.Core.Path.{subst}
use native.Mathlib.Decide.{ℕ_discrete}
use hotello_backend.Common.{ℕ, List, ◌≡◌, ◌⊎◌, refl, sym, ◌∙◌, ap, Option, some, Text, arith}
use hotello_backend.Store.{TypeOrm, AllRows, AllRows-save, get-save_self, get-save_ne}
use hotello_backend.Model.People.{TenantUser}
use hotello_backend.Model.Stays.{Stay}
use hotello_backend.Model.Charges.{FnbOrder, delivered, cancelled, FnbCancelReason}
use hotello_backend.Exec.{World, final}
use hotello_backend.Exec.Keeps.{Keeps-final}
use hotello_backend.Fnb.Orders
use hotello_backend.Fnb.Rows.{may_move}
use hotello_backend.Fnb.Changes.{
  OrderTable, IsKept, Change, started, sent, delivered_by, cancelled_by, cancelled_own, assigned,
  settled,
}
use hotello_backend.Fnb.Handlers.{
  start-Keeps, out_for_delivery-Keeps, deliver-Keeps, cancel-Keeps, assign-Keeps, cancel_own-Keeps,
}
use hotello_backend.Fnb.Life.{IsDated, Change-IsDated}
use hotello_backend.Settlement.Service.{settle}
use hotello_backend.Settlement.FnbRoute.{settle_stay_orders}
use hotello_backend.Settlement.Kept.{settle-Keeps, settle_stay_orders-Keeps}

-- a call on the orders, with its body
pub data OrderCall : Type 0 where
  start_call out_call deliver_call : TenantUser → ℕ → OrderCall
  cancel_call : TenantUser → ℕ → FnbCancelReason → Option Text → OrderCall
  assign_call : TenantUser → ℕ → Option ℕ → OrderCall
  own_cancel_call : Stay → ℕ → OrderCall
  settle_call : TenantUser → ℕ → OrderCall
  settle_orders_call : TenantUser → ℕ → List ℕ → OrderCall

Change-id : (old next : FnbOrder) → Change old next → next.id ≡ old.id
Change-id old _ (started now user_id ok) = refl
Change-id old _ (sent now ok) = refl
Change-id old _ (delivered_by now user_id ok) = refl
Change-id old _ (cancelled_by now user_id reason memo ok) = refl
Change-id old _ (cancelled_own now ok) = refl
Change-id old _ (assigned id ok) = refl
Change-id old _ (settled now user_id ok pay free) = refl

-- a final order only changes by its settlement
Change-final :
    (old next : FnbOrder)
    → Change old next
    → (old.status ≡ delivered) ⊎ (old.status ≡ cancelled)
    → next ≡ record old { settled_at = next.settled_at; settled_by_id = next.settled_by_id }
unfolding may_move
Change-final old _ (started now user_id ok) over = absurd (ground arith)
Change-final old _ (sent now ok) over = absurd (ground arith)
Change-final old _ (delivered_by now user_id ok) over = absurd (ground arith)
Change-final old _ (cancelled_by now user_id reason memo ok) over = absurd (ground arith)
Change-final old _ (cancelled_own now ok) over = absurd (ground arith)
Change-final old _ (assigned id ok) over = absurd (ground arith)
Change-final old _ (settled now user_id ok pay free) over = refl

module _ (orm : TypeOrm) where
  -- the state that a call leaves
  unfoldable pub perform : OrderCall → World orm → World orm
  perform (start_call user id) w = final (Orders.start orm user id w)
  perform (out_call user id) w = final (Orders.out_for_delivery orm user id w)
  perform (deliver_call user id) w = final (Orders.deliver orm user id w)
  perform (cancel_call user id reason memo) w = final (Orders.cancel orm user id reason memo w)
  perform (assign_call user id to) w = final (Orders.assign orm user id to w)
  perform (own_cancel_call stay id) w = final (Orders.cancel_own orm stay id w)
  perform (settle_call user stay_id) w = final (settle orm user stay_id w)
  perform (settle_orders_call user stay_id ids) w =
      final (settle_stay_orders orm user stay_id ids w)

  perform_keeps :
      (J : OrderTable orm → Type 0) (c : OrderCall) (w : World orm)
      → IsKept orm J
      → J w.orders
      → J (perform c w).orders
  unfolding perform
  perform_keeps J (start_call user id) w kept h = Keeps-final (start-Keeps orm J kept user id) w h
  perform_keeps J (out_call user id) w kept h =
      Keeps-final (out_for_delivery-Keeps orm J kept user id) w h
  perform_keeps J (deliver_call user id) w kept h =
      Keeps-final (deliver-Keeps orm J kept user id) w h
  perform_keeps J (cancel_call user id reason memo) w kept h =
      Keeps-final (cancel-Keeps orm J kept user id reason memo) w h
  perform_keeps J (assign_call user id to) w kept h =
      Keeps-final (assign-Keeps orm J kept user id to) w h
  perform_keeps J (own_cancel_call stay id) w kept h =
      Keeps-final (cancel_own-Keeps orm J kept stay id) w h
  perform_keeps J (settle_call user stay_id) w kept h =
      Keeps-final (settle-Keeps orm J user stay_id kept) w h
  perform_keeps J (settle_orders_call user stay_id ids) w kept h =
      Keeps-final (settle_stay_orders-Keeps orm J user stay_id ids kept) w h

  -- the states after some calls, with changes to the other tables in between
  pub data Reach : World orm → World orm → Type 0 where
    here : {w : World orm} → Reach w w
    after : {w v : World orm} (c : OrderCall) → Reach w v → Reach w (perform c v)
    elsewhere : {w v u : World orm} → Reach w v → u.orders ≡ v.orders → Reach w u

  reach_keeps :
      (J : OrderTable orm → Type 0)
      → IsKept orm J
      → {w v : World orm} → Reach w v
      → J w.orders
      → J v.orders
  reach_keeps J kept here h = h
  reach_keeps J kept (after {v} c r) h = perform_keeps J c v kept (reach_keeps J kept r h)
  reach_keeps J kept (elsewhere r e) h = subst J (sym e) (reach_keeps J kept r h)

  -- From dated orders no order of calls, refused or not, reaches an order whose time stamps disagree
  -- with its status: preparation is stamped from `preparing` on, departure from `on_the_way` on,
  -- delivery and cancellation exactly in their own status, a cancelled order has a reason, and only
  -- a delivered room charge is settled.
  pub Reach-IsDated :
      (w v : World orm)
      → Reach w v
      → AllRows orm {key = λ o. o.id} IsDated w.orders
      → AllRows orm {key = λ o. o.id} IsDated v.orders
  Reach-IsDated w v r h =
      reach_keeps (AllRows orm {key = λ o. o.id} IsDated)
        (λ t old next stored c all.
          AllRows-save orm IsDated next t (Change-IsDated old next c (all old.id old stored)) all)
        r h

  -- a delivered order, up to its settlement
  abbrev pub IsDelivery : FnbOrder → FnbOrder → Type 0
  IsDelivery s r = r ≡ record s { settled_at = r.settled_at; settled_by_id = r.settled_by_id }

  abbrev pub StoresFinal : ℕ → FnbOrder → OrderTable orm → Type 0
  StoresFinal k s t = (r : FnbOrder) × (orm.get t k ≡ some r) × IsDelivery s r

  StoresFinal-IsKept :
      (k : ℕ) (s : FnbOrder)
      → (s.status ≡ delivered) ⊎ (s.status ≡ cancelled)
      → IsKept orm (StoresFinal k s)
  StoresFinal-IsKept k s ended t old next stored c (r, row, same) = elim (ℕ_discrete old.id k) [
    | no other ↦
        (r, get-save_ne orm next t k (λ e. other (sym (Change-id old next c) ∙ e)) ∙ row, same)
    | yes e ↦
        let hit : some old ≡ some r = sym stored ∙ ap (orm.get t) e ∙ row in
        let p : old ≡ r = cc in
        let over =
          subst (λ x. (x.status ≡ delivered) ⊎ (x.status ≡ cancelled)) (sym p)
            (subst (λ x. (x.status ≡ delivered) ⊎ (x.status ≡ cancelled)) (sym same) ended) in
        (
          next,
          ap (orm.get (orm.save next t)) (sym e ∙ sym (Change-id old next c))
              ∙ get-save_self orm next t,
          Change-final old next c over
              ∙ ap
                  (λ (x : FnbOrder). record x {
                    settled_at = next.settled_at;
                    settled_by_id = next.settled_by_id;
                  })
                  (p ∙ same),
        )
  ]

  -- An order that is cancelled or delivered is never moved again: whatever is called afterwards, its
  -- row is what it was, up to the two settlement columns.
  pub Reach-IsDelivery :
      (w v : World orm) (k : ℕ) (s : FnbOrder)
      → Reach w v
      → orm.get w.orders k ≡ some s
      → (s.status ≡ delivered) ⊎ (s.status ≡ cancelled)
      → (r : FnbOrder) × (orm.get v.orders k ≡ some r) × IsDelivery s r
  Reach-IsDelivery w v k s r stored ended =
      reach_keeps (StoresFinal k s) (StoresFinal-IsKept k s ended) r (s, stored, refl)

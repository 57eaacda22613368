-- ===== src/Fnb/Life.antt =====
-- The time stamps of an order follow its status: src/modules/fnb/fnb-order.entity.ts.
use hotello_backend.Common.{◌≡◌, ◌≢◌, ◌⊎◌, ◌↔◌, none, some, arith}
use hotello_backend.Model.Charges.{
  FnbOrder, new, preparing, on_the_way, delivered, cancelled, room_charge,
}
use hotello_backend.Fnb.Rows.{may_move}
use hotello_backend.Fnb.Changes.{
  Change, started, sent, delivered_by, cancelled_by, cancelled_own, assigned, settled,
}

-- The stamps that a status asks for, and nothing settled but a delivered room charge.
pub record IsDated (o : FnbOrder) : Type 0 where
  pub fresh : o.status ≡ new → o.started_at ≡ none
  pub begun :
      (o.status ≡ preparing) ⊎ (o.status ≡ on_the_way) ⊎ (o.status ≡ delivered)
      → o.started_at ≢ none
  pub left : (o.status ≡ on_the_way) ⊎ (o.status ≡ delivered) → o.out_for_delivery_at ≢ none
  pub arrived : (o.status ≡ delivered) ↔ (o.delivered_at ≢ none)
  pub ended : (o.status ≡ cancelled) ↔ (o.cancelled_at ≢ none)
  pub explained : o.status ≡ cancelled → o.cancelled_reason ≢ none
  pub charged : o.settled_at ≢ none → (o.status ≡ delivered) × (o.payment_method ≡ some room_charge)

pub Change-IsDated : (old next : FnbOrder) → Change old next → IsDated old → IsDated next
unfolding may_move
Change-IsDated old _ (started now user_id ok) h = ground arith
Change-IsDated old _ (sent now ok) h = ground arith
Change-IsDated old _ (delivered_by now user_id ok) h = ground arith
Change-IsDated old _ (cancelled_by now user_id reason memo ok) h = ground arith
Change-IsDated old _ (cancelled_own now ok) h = ground arith
Change-IsDated old _ (assigned id ok) h = record {
  fresh = h.fresh;
  begun = h.begun;
  left = h.left;
  arrived = h.arrived;
  ended = h.ended;
  explained = h.explained;
  charged = h.charged;
}
Change-IsDated old _ (settled now user_id ok pay free) h = ground arith

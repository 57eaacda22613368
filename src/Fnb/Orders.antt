-- ===== src/Fnb/Orders.antt =====
-- src/modules/fnb/tenant-fnb-orders.service.ts: the life of an order under the staff's hands, and
-- `cancelOwn` of src/modules/fnb/guest-fnb.service.ts. An action returns the saved order, of which the
-- source's view is a projection with the order's lines.
use hotello_backend.Common.{
  ℕ, String, not, ◌&&◌, Option, none, some, [], ◌∷◌, Text, ◌==◌, trim_or_null,
}
use hotello_backend.Store.{TypeOrm}
use hotello_backend.Model.People.{TenantUser}
use hotello_backend.Model.Stays.{Stay}
use hotello_backend.Model.Charges.{
  FnbOrder, FnbOrderStatus, preparing, on_the_way, delivered, cancelled, FnbCancelReason,
}
use hotello_backend.Model.Effects.{
  Detail, number, word, number_or_null, text_or_null, Metadata, spread,
}
use hotello_backend.Exec.{
  fnb_order_not_found, fnb_order_invalid_status, fnb_assignee_invalid, Exec, pure, gets, guard,
  from_option, when, modify, ◌>>=◌, ◌>>◌,
}
use hotello_backend.Shared.{grants, log, notify}
use hotello_backend.Fnb.Rows.{
  status_key, may_move, is_open, is_new, reason_key, payment_word, names_or_null, location_line,
  item_count, started_order, sent_order, delivered_order, cancelled_order, guest_cancelled_order,
}

module _ (orm : TypeOrm) where
  unfoldable pub find_order : ℕ → ℕ → Exec orm FnbOrder
  find_order hotel_id id = do
    order ← gets (λ w. orm.find_one (λ o. o.id == id && o.hotel_id == hotel_id) w.orders)
    from_option fnb_order_not_found order

  unfoldable pub assert_transition : FnbOrder → FnbOrderStatus → Exec orm (Unit {0})
  assert_transition order target = guard (may_move order.status target) fnb_order_invalid_status

  unfoldable pub save_order : FnbOrder → Exec orm (Unit {0})
  save_order order = modify (λ w. record w { orders = orm.save order w.orders })

  unfoldable pub audit : String → FnbOrder → TenantUser → Metadata → Exec orm (Unit {0})
  unfolding spread
  audit action order actor extra = log orm (record {
    action = action;
    entity_type = "fnb_order";
    entity_id = order.id;
    actor_id = some actor.id;
    metadata =
        spread
          (("actorType", word "tenant_user")
            ∷ ("hotelId", number actor.hotel_id)
            ∷ ("status", word (status_key order.status))
            ∷ [])
          extra;
  })

  unfoldable pub notify_order_push : FnbOrder → Exec orm (Unit {0})
  unfolding location_line item_count
  notify_order_push order = do
    lines ← gets (λ w. orm.find (λ l. l.order_id == order.id) w.order_lines)
    notify orm order.hotel_id
        (record {
          stay_ids = order.stay_id ∷ [];
          tenant_user_ids = [];
          tenant_permission = none;
          exclude_user_id = none;
          muted_hint_key = none;
        })
        "order_status" (some order.id)
        (("id", number order.id)
          ∷ ("itemCount", number (item_count lines))
          ∷ ("locationLine", text_or_null (location_line order))
          ∷ ("status", word (status_key order.status))
          ∷ [])

  unfoldable pub start : TenantUser → ℕ → Exec orm FnbOrder
  start user id = do
    order ← find_order user.hotel_id id
    assert_transition order preparing
    now ← gets (λ w. w.now)
    let saved = started_order now user.id order
    save_order saved
    audit "fnb_order.started" saved user []
    notify_order_push saved
    pure saved

  unfoldable pub out_for_delivery : TenantUser → ℕ → Exec orm FnbOrder
  out_for_delivery user id = do
    order ← find_order user.hotel_id id
    assert_transition order on_the_way
    now ← gets (λ w. w.now)
    let saved = sent_order now order
    save_order saved
    audit "fnb_order.out_for_delivery" saved user []
    notify_order_push saved
    pure saved

  unfoldable pub deliver : TenantUser → ℕ → Exec orm FnbOrder
  deliver user id = do
    order ← find_order user.hotel_id id
    assert_transition order delivered
    now ← gets (λ w. w.now)
    let saved = delivered_order now user.id order
    save_order saved
    audit "fnb_order.delivered" saved user (
        ("totalAmount", number saved.total_amount)
        ∷ ("paymentMethod", payment_word saved.payment_method)
        ∷ [])
    notify_order_push saved
    pure saved

  unfoldable pub cancel : TenantUser → ℕ → FnbCancelReason → Option Text → Exec orm FnbOrder
  unfolding trim_or_null
  cancel user id reason note = do
    order ← find_order user.hotel_id id
    assert_transition order cancelled
    now ← gets (λ w. w.now)
    let saved = cancelled_order now user.id reason (trim_or_null note) order
    save_order saved
    audit "fnb_order.cancelled" saved user (("reason", word (reason_key reason)) ∷ [])
    notify_order_push saved
    pure saved

  -- an id that is given is looked up and must be able to work orders
  unfoldable pub resolve_assignee : ℕ → Option ℕ → Exec orm (Option TenantUser)
  resolve_assignee hotel_id none = pure none
  resolve_assignee hotel_id (some assignee_id) = do
    assignee ← gets (λ w. orm.find_one (λ u. u.id == assignee_id && u.hotel_id == hotel_id) w.users)
    assignee ← from_option fnb_assignee_invalid assignee
    guard (grants "fnb_orders.update" assignee) fnb_assignee_invalid
    pure (some assignee)

  abbrev pub id_of : Option TenantUser → Option ℕ
  id_of none = none
  id_of (some u) = some u.id

  unfoldable pub notify_assignee : TenantUser → FnbOrder → Option TenantUser → Exec orm (Unit {0})
  notify_assignee user order none = pure tt
  notify_assignee user order (some assignee) = when (not (assignee.id == user.id)) (
      notify orm order.hotel_id
        (record {
          stay_ids = [];
          tenant_user_ids = assignee.id ∷ [];
          tenant_permission = none;
          exclude_user_id = none;
          muted_hint_key = none;
        })
        "staff_assigned" (some order.id)
        (("feed", word "orders")
          ∷ ("id", number order.id)
          ∷ ("roomNumber", Detail.text order.room_number)
          ∷ ("locationNames", names_or_null order.location_names)
          ∷ ("spot", text_or_null order.spot)
          ∷ []))

  unfoldable pub assign : TenantUser → ℕ → Option ℕ → Exec orm FnbOrder
  assign user id assignee_id = do
    order ← find_order user.hotel_id id
    guard (is_open order.status) fnb_order_invalid_status
    assignee ← resolve_assignee user.hotel_id assignee_id
    let saved = record order { assigned_to_id = id_of assignee }
    save_order saved
    audit "fnb_order.assigned" saved user (("assigneeId", number_or_null (id_of assignee)) ∷ [])
    notify_assignee user saved assignee
    pure saved

  -- the guest cancels an order of the stay while it is new
  unfoldable pub cancel_own : Stay → ℕ → Exec orm FnbOrder
  cancel_own stay id = do
    order ← gets (λ w. orm.find_one (λ o. o.id == id && o.stay_id == stay.id) w.orders)
    order ← from_option fnb_order_not_found order
    guard (is_new order.status) fnb_order_invalid_status
    now ← gets (λ w. w.now)
    let saved = guest_cancelled_order now order
    save_order saved
    log orm (record {
      action = "fnb_order.cancelled";
      entity_type = "fnb_order";
      entity_id = saved.id;
      actor_id = none;
      metadata =
          ("actorType", word "guest")
          ∷ ("hotelId", number stay.hotel_id)
          ∷ ("stayId", number stay.id)
          ∷ ("reason", word "guest")
          ∷ [];
    })
    pure saved

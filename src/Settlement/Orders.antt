-- ===== src/Settlement/Orders.antt =====
-- src/modules/fnb/fnb-settlement-source.ts: room-charge orders that were delivered.
use hotello_backend.Common.{
  ℕ, Bool, true, false, ◌&&◌, List, [], ◌∷◌, map, filter, any, length, ◌==◌, if◌then◌else◌,
}
use hotello_backend.Store.{TypeOrm}
use hotello_backend.Model.Charges.{FnbOrder, FnbOrderStatus, delivered}
use hotello_backend.Exec.{Exec, pure, gets, modify, ◌>>=◌, ◌>>◌}
use hotello_backend.Shared.{is_null}
use hotello_backend.Fnb.Changes.{settled_order}
use hotello_backend.Settlement.Lines.{UnsettledLine, is_room_charge}

abbrev pub is_delivered : FnbOrderStatus → Bool
is_delivered delivered = true
is_delivered _ = false

abbrev pub is_eligible : FnbOrder → Bool
is_eligible o = is_delivered o.status && is_room_charge o.payment_method && is_null o.settled_at

abbrev pub to_line : FnbOrder → UnsettledLine
to_line o = record { id = o.id; total_amount = o.total_amount }

-- `orderIds?.length` restricts the query
abbrev pub is_among : List ℕ → ℕ → Bool
is_among [] id = true
is_among (i ∷ ids) id = any (λ j. j == id) (i ∷ ids)

abbrev pub is_due : ℕ → ℕ → FnbOrder → Bool
is_due hotel_id stay_id o = o.hotel_id == hotel_id && o.stay_id == stay_id && is_eligible o

module _ (orm : TypeOrm) where
  unfoldable pub find_unsettled : ℕ → ℕ → Exec orm (List UnsettledLine)
  unfolding filter
  find_unsettled hotel_id stay_id = gets (λ w. map to_line (
      filter is_eligible (orm.find (λ o. o.hotel_id == hotel_id && o.stay_id == stay_id) w.orders)))

  unfoldable pub save_settled : ℕ → ℕ → List FnbOrder → Exec orm (Unit {0})
  save_settled now user_id [] = pure tt
  save_settled now user_id (o ∷ os) = do
    modify (λ w. record w { orders = orm.save (settled_order now user_id o) w.orders })
    save_settled now user_id os

  unfoldable pub mark_settled : List ℕ → ℕ → ℕ → ℕ → Exec orm (List UnsettledLine)
  mark_settled order_ids hotel_id stay_id user_id = do
    to_settle ←
        gets (λ w. orm.find (λ o. is_due hotel_id stay_id o && is_among order_ids o.id) w.orders)
    if length to_settle == 0 then pure [] else do
      now ← gets (λ w. w.now)
      save_settled now user_id to_settle
      pure (map to_line to_settle)

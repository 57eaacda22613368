-- ===== src/Fnb/Changes.antt =====
-- The changes that the services make to a stored order: src/modules/fnb. Every action keeps what these
-- changes keep.
use hotello_backend.Common.{ℕ, ◌≡◌, true, Option, none, some, Text}
use hotello_backend.Store.{TypeOrm}
use hotello_backend.Model.Charges.{
  FnbOrder, new, preparing, on_the_way, delivered, cancelled, FnbCancelReason, room_charge,
}
use hotello_backend.Fnb.Rows.{
  started_order, sent_order, delivered_order, cancelled_order, guest_cancelled_order, is_open,
  may_move,
}

-- the order with its room charge settled
abbrev pub settled_order : ℕ → ℕ → FnbOrder → FnbOrder
settled_order now user_id order = record order {
  settled_at = some now;
  settled_by_id = some user_id;
}

-- the row that replaces `old`
pub data Change (old : FnbOrder) : FnbOrder → Type 0 where
  started :
      (now user_id : ℕ)
      → may_move old.status preparing ≡ true
      → Change old (started_order now user_id old)
  sent : (now : ℕ) → may_move old.status on_the_way ≡ true → Change old (sent_order now old)
  delivered_by :
      (now user_id : ℕ)
      → may_move old.status delivered ≡ true
      → Change old (delivered_order now user_id old)
  cancelled_by :
      (now user_id : ℕ) (reason : FnbCancelReason) (note : Option Text)
      → may_move old.status cancelled ≡ true
      → Change old (cancelled_order now user_id reason note old)
  cancelled_own : (now : ℕ) → old.status ≡ new → Change old (guest_cancelled_order now old)
  assigned :
      (id : Option ℕ) → is_open old.status ≡ true → Change old (record old { assigned_to_id = id })
  settled :
      (now user_id : ℕ)
      → old.status ≡ delivered
      → old.payment_method ≡ some room_charge
      → old.settled_at ≡ none
      → Change old (settled_order now user_id old)

module _ (orm : TypeOrm) where
  abbrev pub OrderTable : Type 0
  OrderTable = orm.Table FnbOrder (λ o. o.id)

  -- `J` survives every change of a stored order
  abbrev pub IsKept : (OrderTable → Type 0) → Type 0
  IsKept J =
      (t : OrderTable) (old next : FnbOrder)
      → orm.get t old.id ≡ some old
      → Change old next
      → J t
      → J (orm.save next t)

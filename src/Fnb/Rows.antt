-- ===== src/Fnb/Rows.antt =====
-- The columns of an order and the orders that the actions of src/modules/fnb save.
use package.text.Mathlib.Text.{◌==◌ as str_eq}
use hotello_backend.Common.{
  ℕ, ◌+◌, String, Bool, true, false, Option, none, some, List, [], ◌∷◌, ◌++◌, find, any, Text,
}
use hotello_backend.Model.Stays.{GuestLanguage}
use hotello_backend.Model.Charges.{
  FnbOrder, FnbOrderLine, FnbOrderStatus, new, preparing, on_the_way, delivered, cancelled,
  FnbCancelReason, guest, out_of_stock, kitchen_closed, guest_request, other, FnbPaymentMethod,
  cash, room_charge, location, TranslationMap,
}
use hotello_backend.Model.Effects.{Detail, word}
use hotello_backend.Stays.Edits.{language_key}

-- FNB_ORDER_TRANSITIONS
unfoldable pub transitions : FnbOrderStatus → List FnbOrderStatus
transitions new = preparing ∷ cancelled ∷ []
transitions preparing = on_the_way ∷ cancelled ∷ []
transitions on_the_way = delivered ∷ []
transitions delivered = []
transitions cancelled = []

abbrev pub status_key : FnbOrderStatus → String
status_key new = "new"
status_key preparing = "preparing"
status_key on_the_way = "on_the_way"
status_key delivered = "delivered"
status_key cancelled = "cancelled"

abbrev pub same_status : FnbOrderStatus → FnbOrderStatus → Bool
same_status new new = true
same_status preparing preparing = true
same_status on_the_way on_the_way = true
same_status delivered delivered = true
same_status cancelled cancelled = true
same_status _ _ = false

unfoldable pub may_move : FnbOrderStatus → FnbOrderStatus → Bool
unfolding transitions any
may_move from to = any (λ s. same_status s to) (transitions from)

-- OPEN_FNB_ORDER_STATUSES
abbrev pub is_open : FnbOrderStatus → Bool
is_open delivered = false
is_open cancelled = false
is_open _ = true

abbrev pub is_new : FnbOrderStatus → Bool
is_new new = true
is_new _ = false

abbrev pub reason_key : FnbCancelReason → String
reason_key guest = "guest"
reason_key out_of_stock = "out_of_stock"
reason_key kitchen_closed = "kitchen_closed"
reason_key guest_request = "guest_request"
reason_key other = "other"

abbrev pub payment_word : Option FnbPaymentMethod → Detail
payment_word none = Detail.null
payment_word (some cash) = word "cash"
payment_word (some room_charge) = word "room_charge"

abbrev pub names_or_null : Option TranslationMap → Detail
names_or_null none = Detail.null
names_or_null (some names) = Detail.names names

-- `localizeField`: the language, else English, else nothing
unfoldable pub localize_field : TranslationMap → GuestLanguage → Text
unfolding find
localize_field names language = elim (find (λ e. str_eq e.0 (language_key language)) names) [
  | some e ↦ e.1
  | none ↦ elim (find (λ e. str_eq e.0 "en") names) [ some e ↦ e.1 | none ↦ [] ]
]

-- `"{name} · {spot}"`; an empty spot is falsy
unfoldable pub location_line : FnbOrder → Option Text
unfolding localize_field
location_line order = elim order.destination_type [
  | location ↦ elim order.location_names [
    | none ↦ none
    | some names ↦ some (
        localize_field names order.guest_language
        ++ elim order.spot [ none ↦ [] | some [] ↦ [] | some (c ∷ s) ↦ 32 ∷ 183 ∷ 32 ∷ c ∷ s ])
  ]
  | _ ↦ none
]

unfoldable pub item_count : List FnbOrderLine → ℕ
item_count [] = 0
item_count (l ∷ ls) = l.quantity + item_count ls

-- the rows that the actions save
abbrev pub started_order : ℕ → ℕ → FnbOrder → FnbOrder
started_order now user_id order = record order {
  status = preparing;
  started_at = some now;
  started_by_id = some user_id;
  assigned_to_id = elim order.assigned_to_id [ none ↦ some user_id | some id ↦ some id ];
}

abbrev pub sent_order : ℕ → FnbOrder → FnbOrder
sent_order now order = record order { status = on_the_way; out_for_delivery_at = some now }

abbrev pub delivered_order : ℕ → ℕ → FnbOrder → FnbOrder
delivered_order now user_id order = record order {
  status = delivered;
  delivered_at = some now;
  delivered_by_id = some user_id;
}

abbrev pub cancelled_order : ℕ → ℕ → FnbCancelReason → Option Text → FnbOrder → FnbOrder
cancelled_order now user_id reason note order = record order {
  status = cancelled;
  cancelled_at = some now;
  cancelled_by_id = some user_id;
  cancelled_reason = some reason;
  cancel_note = note;
}

abbrev pub guest_cancelled_order : ℕ → FnbOrder → FnbOrder
guest_cancelled_order now order = record order {
  status = cancelled;
  cancelled_at = some now;
  cancelled_by_id = none;
  cancelled_reason = some guest;
}

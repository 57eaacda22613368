-- ===== src/Model/Charges.antt =====
-- What a stay can be charged for: src/modules/fnb/fnb-order.entity.ts, src/modules/fnb/fnb.constants.ts,
-- src/modules/events/event-booking.entity.ts. An amount is in hundredths of a cent.
use hotello_backend.Common.{ℕ, String, Bool, Option, List, Text}
use hotello_backend.Model.Stays.{GuestLanguage}
use hotello_backend.Model.People.{StayType}

pub data FnbOrderStatus : Type 0 where
  new preparing on_the_way delivered cancelled : FnbOrderStatus

pub data FnbCancelReason : Type 0 where
  guest out_of_stock kitchen_closed guest_request other : FnbCancelReason

pub data FnbPaymentMethod : Type 0 where
  cash room_charge : FnbPaymentMethod

pub data FnbDestinationType : Type 0 where
  room location : FnbDestinationType

-- a translation by language key
abbrev pub TranslationMap : Type 0
TranslationMap = List (String × Text)

-- the line of an order, as far as the modelled services read it
pub record FnbOrderLine : Type 0 where
  pub id : ℕ
  pub order_id : ℕ
  pub quantity : ℕ

pub record FnbOrder : Type 0 where
  pub id : ℕ
  pub hotel_id : ℕ
  pub stay_id : ℕ
  pub room_id : ℕ
  pub room_number : Text
  pub guest_language : GuestLanguage
  pub stay_type : StayType
  pub menu_ids : List ℕ
  pub destination_type : FnbDestinationType
  pub location_id : Option ℕ
  pub location_names : Option TranslationMap
  pub spot : Option Text
  pub payment_method : Option FnbPaymentMethod
  pub total_amount : ℕ
  pub status : FnbOrderStatus
  pub sla_target_minutes : ℕ
  pub due_at : ℕ
  pub assigned_to_id : Option ℕ
  pub started_by_id : Option ℕ
  pub delivered_by_id : Option ℕ
  pub cancelled_by_id : Option ℕ
  pub started_at : Option ℕ
  pub out_for_delivery_at : Option ℕ
  pub delivered_at : Option ℕ
  pub cancelled_at : Option ℕ
  pub cancelled_reason : Option FnbCancelReason
  pub cancel_note : Option Text
  pub settled_at : Option ℕ
  pub settled_by_id : Option ℕ
  pub created_at : ℕ

pub data EventBookingStatus : Type 0 where
  booked cancelled : EventBookingStatus

pub data EventBookingCancelledBy : Type 0 where
  guest staff system : EventBookingCancelledBy

-- the event as it was when the booking was made
pub record EventBookingSnapshot : Type 0 where
  pub titles : TranslationMap
  pub start_at_local : Text
  pub end_at_local : Option Text
  pub location_text : Text

pub record EventBooking : Type 0 where
  pub id : ℕ
  pub hotel_id : ℕ
  pub event_id : ℕ
  pub stay_id : ℕ
  pub party_size : ℕ
  pub snapshot : EventBookingSnapshot
  pub unit_price : ℕ
  pub included : Bool
  pub total_amount : ℕ
  pub currency : Text
  pub payment_method : Option FnbPaymentMethod
  pub status : EventBookingStatus
  pub cancelled_by : Option EventBookingCancelledBy
  pub cancelled_at : Option ℕ
  pub cancelled_reason : Option Text
  pub settled_at : Option ℕ
  pub settled_by_id : Option ℕ
  pub created_at : ℕ

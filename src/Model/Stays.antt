-- ===== src/Model/Stays.antt =====
-- Stays and the analytics row of a room change: src/modules/tenant-stays/stay.entity.ts,
-- src/modules/tenant-stays/stay-room-change.entity.ts, src/modules/tenant-stays/stays.constants.ts.
use hotello_backend.Common.{ℕ, Option, Text}
use hotello_backend.Model.People.{StayType}

pub data GuestLanguage : Type 0 where
  ar en ru fr it es de : GuestLanguage

pub data StayStatus : Type 0 where
  active checked_out : StayStatus

pub data CheckoutType : Type 0 where
  manual automatic : CheckoutType

pub record Stay : Type 0 where
  pub id : ℕ
  pub hotel_id : ℕ
  pub room_id : ℕ
  pub guest_name : Text
  pub email : Option Text
  pub phone : Option Text
  pub language : GuestLanguage
  pub guests_count : Option ℕ
  pub stay_type : StayType
  pub note : Option Text
  pub code_hash : ℕ
  pub check_in_date : Text
  pub check_out_date : Text
  pub status : StayStatus
  pub checkout_type : Option CheckoutType
  pub checked_out_at : Option ℕ
  pub checked_out_by_id : Option ℕ

pub record StayRoomChange : Type 0 where
  pub hotel_id : ℕ
  pub stay_id : ℕ
  pub from_room_id : Option ℕ
  pub to_room_id : ℕ
  pub occurred_at : ℕ

-- the `STAY_CODE_ISSUED` event, as far as it depends on the stay
pub record StayCodeIssuedEvent : Type 0 where
  pub stay_id : ℕ
  pub hotel_id : ℕ
  pub guest_name : Text
  pub guest_email : Text
  pub room_number : Text
  pub language : GuestLanguage
  pub check_out_date : Text
  pub raw_code : Text

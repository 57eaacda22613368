-- ===== src/Model/Events.antt =====
-- src/modules/events/event.entity.ts and the row of src/modules/hotel-info that an event links to.
use hotello_backend.Common.{ℕ, Option, List, Text}
use hotello_backend.Model.People.{StayType}
use hotello_backend.Model.Charges.{TranslationMap}

pub data EventStatus : Type 0 where
  draft published completed cancelled : EventStatus

-- the photo keys belong to EventPhotoService and are left out
pub record Event : Type 0 where
  pub id : ℕ
  pub hotel_id : ℕ
  pub titles : TranslationMap
  pub descriptions : TranslationMap
  pub start_at_local : Text
  pub end_at_local : Option Text
  pub location_text : Text
  pub info_entry_id : Option ℕ
  pub capacity : Option ℕ
  pub price : ℕ
  pub included_for : List StayType
  pub status : EventStatus
  pub cancel_reason : Option Text
  pub created_by_id : ℕ
  pub published_at : Option ℕ
  pub cancelled_at : Option ℕ
  pub completed_at : Option ℕ
  pub cancelled_by_id : Option ℕ

-- an entry of the hotel information, as far as the link to it is checked
pub record HotelInfoEntry : Type 0 where
  pub id : ℕ
  pub hotel_id : ℕ

-- ===== src/Model/Rooms.antt =====
-- Rooms and their housekeeping columns: src/modules/tenant-rooms/room.entity.ts,
-- src/modules/housekeeping/housekeeping.constants.ts, src/modules/housekeeping/housekeeping-event.entity.ts.
use hotello_backend.Common.{ℕ, Option, Text}

pub data RoomStatus : Type 0 where
  active out_of_service inactive : RoomStatus

pub data HousekeepingStatus : Type 0 where
  clean needs_cleaning in_progress dnd : HousekeepingStatus

pub data CleaningType : Type 0 where
  checkout daily : CleaningType

pub record Room : Type 0 where
  pub id : ℕ
  pub hotel_id : ℕ
  pub room_number : Text
  pub floor : Option ℕ
  pub status : RoomStatus
  pub housekeeping_status : HousekeepingStatus
  pub cleaning_type : Option CleaningType
  pub dnd_set_by_stay_id : Option ℕ
  pub housekeeping_assigned_to_id : Option ℕ
  pub last_cleaned_at : Option ℕ
  pub last_cleaned_by_id : Option ℕ
  pub last_daily_flagged_on : Option Text

pub data HousekeepingEventType : Type 0 where
  flagged started completed interrupted cleared dnd_set dnd_cleared : HousekeepingEventType

pub record HousekeepingEvent : Type 0 where
  pub hotel_id : ℕ
  pub room_id : ℕ
  pub event_type : HousekeepingEventType
  pub cleaning_type : Option CleaningType
  pub actor_id : Option ℕ
  pub assigned_to_id : Option ℕ
  pub occurred_at : ℕ

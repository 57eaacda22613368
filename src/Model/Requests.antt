-- ===== src/Model/Requests.antt =====
-- Guest requests: src/modules/requests/request.entity.ts, src/modules/requests/requests.constants.ts.
use hotello_backend.Common.{ℕ, Option, Text}
use hotello_backend.Model.Charges.{TranslationMap}
use hotello_backend.Model.Stays.{GuestLanguage}

pub data RequestStatus : Type 0 where
  new in_progress done cancelled : RequestStatus

pub data RequestCancelReason : Type 0 where
  guest guest_request not_available duplicate other : RequestCancelReason

pub data RequestOptionType : Type 0 where
  quantity time : RequestOptionType

pub record GuestRequest : Type 0 where
  pub id : ℕ
  pub hotel_id : ℕ
  pub stay_id : ℕ
  pub room_id : ℕ
  pub room_number : Text
  pub item_id : ℕ
  pub category_id : ℕ
  pub item_names : TranslationMap
  pub option_type : Option RequestOptionType
  pub option_value : Option Text
  pub note : Option Text
  pub note_language : Option GuestLanguage
  pub status : RequestStatus
  pub sla_target_minutes : ℕ
  pub due_at : ℕ
  pub assigned_to_id : Option ℕ
  pub started_at : Option ℕ
  pub started_by_id : Option ℕ
  pub completed_at : Option ℕ
  pub completed_by_id : Option ℕ
  pub cancelled_at : Option ℕ
  pub cancelled_by_id : Option ℕ
  pub cancelled_reason : Option RequestCancelReason
  pub cancel_note : Option Text
  pub created_at : ℕ

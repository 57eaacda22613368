-- ===== src/Model/People.antt =====
-- Hotels and tenant users: the columns that the modelled services read.
-- src/modules/hotels/hotel.entity.ts, src/modules/tenant-users/tenant-user.entity.ts. A UUID is only
-- compared for equality, so an id is a number.
use hotello_backend.Common.{ℕ, String, Bool, Option, List, Text}
use hotello_backend.Model.Subscriptions.{SubscriptionStatus}

-- `HotelStatus` of src/modules/hotels
pub data HotelStatus : Type 0 where
  active suspended inactive : HotelStatus

pub data StayType : Type 0 where
  all_inclusive half_board bed_breakfast room_only : StayType

pub record Hotel : Type 0 where
  pub id : ℕ
  pub status : HotelStatus
  pub timezone : Text
  pub currency : Text
  pub checkout_time : Text
  pub daily_service_time : Text
  pub default_stay_type : StayType
  pub room_charge_enabled : Bool
  pub rooms_count : ℕ
  pub staff_users_count : ℕ
  pub monthly_guest_requests : ℕ

pub data UserStatus : Type 0 where
  pending active disabled : UserStatus

pub record TenantRole : Type 0 where
  pub permissions : List String

-- a user with its `role` relation loaded
pub record TenantUser : Type 0 where
  pub id : ℕ
  pub hotel_id : ℕ
  pub name : Text
  pub role : TenantRole
  pub status : UserStatus

-- what `TenantAccessService.getAccessState` answers
pub record AccessState : Type 0 where
  pub hotel_status : HotelStatus
  pub subscription_status : Option SubscriptionStatus
  pub trial_ends_at : Option ℕ
  pub enabled_modules : List String
  pub plan_name_en : Option Text
  pub plan_name_ar : Option Text
  pub trial_days_remaining : Option ℕ
  pub read_only : Bool

-- ===== src/Witnesses/Samples.antt =====
-- One hotel with a room, a user, a stay, an order, a booking and a request.
use hotello_backend.Common.{ℕ, ◌*◌, refl, false, none, some, [], ◌∷◌, Text}
use hotello_backend.Store.{AllRows, AllRows-save}
use hotello_backend.Clock.{Intl}
use hotello_backend.Model.People.{Hotel, HotelStatus, all_inclusive, UserStatus, TenantUser}
use hotello_backend.Model.Rooms.{Room, RoomStatus, needs_cleaning, daily}
use hotello_backend.Model.Stays.{Stay, StayStatus, en}
use hotello_backend.Exec.{World}
use hotello_backend.Housekeeping.Sound.{IsSound, AllSound}
use hotello_backend.Witnesses.Database.{database}

abbrev pub noon : Text
noon = b'1' ∷ b'2' ∷ b':' ∷ b'0' ∷ b'0' ∷ []

-- a calendar that stands still, with a clock that shows noon
abbrev pub frozen : Intl
frozen = record {
  format_to_parts = λ timezone now. record {
    year = b'2' ∷ b'0' ∷ b'2' ∷ b'6' ∷ [];
    month = b'0' ∷ b'1' ∷ [];
    day = b'0' ∷ b'2' ∷ [];
    hour = b'1' ∷ b'2' ∷ [];
    minute = b'0' ∷ b'0' ∷ [];
  };
  cairo = [];
}

abbrev pub today : Text
today = b'2' ∷ b'0' ∷ b'2' ∷ b'6' ∷ b'-' ∷ b'0' ∷ b'1' ∷ b'-' ∷ b'0' ∷ b'2' ∷ []

abbrev pub the_hotel : Hotel
the_hotel = record {
  id = 1;
  status = HotelStatus.active;
  timezone = [];
  currency = [];
  checkout_time = noon;
  daily_service_time = noon;
  default_stay_type = all_inclusive;
  room_charge_enabled = false;
  rooms_count = 1;
  staff_users_count = 1;
  monthly_guest_requests = 0;
}

abbrev pub the_user : TenantUser
the_user = record {
  id = 5;
  hotel_id = 1;
  name = [];
  role = record { permissions = "*" ∷ [] };
  status = UserStatus.active;
}

abbrev pub the_room : Room
the_room = record {
  id = 7;
  hotel_id = 1;
  room_number = b'7' ∷ [];
  floor = none;
  status = RoomStatus.active;
  housekeeping_status = needs_cleaning;
  cleaning_type = some daily;
  dnd_set_by_stay_id = none;
  housekeeping_assigned_to_id = none;
  last_cleaned_at = none;
  last_cleaned_by_id = none;
  last_daily_flagged_on = none;
}

abbrev pub the_stay : Stay
the_stay = record {
  id = 9;
  hotel_id = 1;
  room_id = 7;
  guest_name = b'A' ∷ [];
  email = none;
  phone = none;
  language = en;
  guests_count = none;
  stay_type = all_inclusive;
  note = none;
  code_hash = 4711;
  check_in_date = today;
  check_out_date = today;
  status = StayStatus.active;
  checkout_type = none;
  checked_out_at = none;
  checked_out_by_id = none;
}

abbrev pub the_world : World database
the_world = record {
  now = 100;
  draw = λ n. n * n;
  drawn = 0;
  hotels = the_hotel ∷ [];
  users = the_user ∷ [];
  rooms = the_room ∷ [];
  stays = the_stay ∷ [];
  orders = [];
  order_lines = [];
  bookings = [];
  events = [];
  info_entries = [];
  requests = [];
  access = λ hotel_id. record {
    hotel_status = HotelStatus.active;
    subscription_status = none;
    trial_ends_at = none;
    enabled_modules = "housekeeping" ∷ [];
    plan_name_en = none;
    plan_name_ar = none;
    trial_days_remaining = none;
    read_only = false;
  };
  audit_logs = [];
  housekeeping_events = [];
  room_changes = [];
  stay_code_events = [];
  pushes = [];
  event_notices = [];
  plans = [];
  subscriptions = [];
  trial_notices = [];
}

pub the_room-IsSound : IsSound the_room
the_room-IsSound = record {
  typed = λ _ e. cc;
  untyped = λ e. cc;
  asked = λ e. cc;
  unasked = λ _. refl;
}

-- nothing is stored in an empty table
pub AllRows-nil : {A : Type 0} (key : A → ℕ) (P : A → Type 0) → AllRows database {key = key} P []
AllRows-nil key P k r e = cc

pub the_world-AllSound : AllSound database the_world
the_world-AllSound =
    AllRows-save database {key = λ r. r.id} IsSound the_room [] the_room-IsSound
      (AllRows-nil (λ r. r.id) IsSound)

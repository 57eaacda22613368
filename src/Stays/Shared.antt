-- ===== src/Stays/Shared.antt =====
-- src/modules/tenant-stays/tenant-stays.service.ts: the internals that the operations share.
use hotello_backend.Common.{
  ℕ, String, Bool, true, false, ◌&&◌, Option, none, some, [], ◌∷◌, ◌++◌, Text, ◌==◌, text_lt,
  if◌then◌else◌,
}
use hotello_backend.Store.{TypeOrm}
use hotello_backend.Clock.{Intl, hotel_local_parts}
use hotello_backend.Calendar.{days_left}
use hotello_backend.Model.People.{Hotel, StayType, TenantUser}
use hotello_backend.Model.Rooms.{Room, RoomStatus}
use hotello_backend.Model.Stays.{Stay, StayStatus, GuestLanguage, CheckoutType}
use hotello_backend.Model.Effects.{number, word, Metadata}
use hotello_backend.Exec.{
  World, stay_not_found, stay_not_active, hotel_not_found, room_not_found, room_not_available,
  room_occupied, invalid_stay_dates, internal_error, Exec, pure, gets, guard, from_option, modify,
  ◌>>=◌, ◌>>◌,
}
use hotello_backend.Shared.{is_null, is_active_stay, log}

pub record StayView : Type 0 where
  pub id : ℕ
  pub room_id : ℕ
  pub room_number : Text
  pub floor : Option ℕ
  pub guest_name : Text
  pub email : Option Text
  pub phone : Option Text
  pub language : GuestLanguage
  pub guests_count : Option ℕ
  pub note : Option Text
  pub stay_type : StayType
  pub check_in_date : Text
  pub check_out_date : Text
  pub nights_remaining : Option ℕ
  pub status : StayStatus
  pub checkout_type : Option CheckoutType
  pub checked_out_at : Option ℕ

abbrev pub is_available : RoomStatus → Bool
is_available RoomStatus.active = true
is_available _ = false

-- a stay and the room relation that is loaded with it
pub record LoadedStay : Type 0 where
  pub stay : Stay
  pub room : Option Room

module _ (orm : TypeOrm) where
  -- the active stay of a room
  abbrev pub occupies : ℕ → Stay → Bool
  occupies room_id s = s.room_id == room_id && is_active_stay s

  -- `toView`; without a hotel there are no remaining nights
  unfoldable pub to_view : Intl → Stay → Room → Option Hotel → World orm → StayView
  unfolding days_left hotel_local_parts
  to_view intl stay room hotel w = record {
    id = stay.id;
    room_id = stay.room_id;
    room_number = room.room_number;
    floor = room.floor;
    guest_name = stay.guest_name;
    email = stay.email;
    phone = stay.phone;
    language = stay.language;
    guests_count = stay.guests_count;
    note = stay.note;
    stay_type = stay.stay_type;
    check_in_date = stay.check_in_date;
    check_out_date = stay.check_out_date;
    nights_remaining = elim hotel [
      | none ↦ none
      | some h ↦
          if is_active_stay stay
          then some (days_left (hotel_local_parts intl h.timezone w.now).date stay.check_out_date)
          else none
    ];
    status = stay.status;
    checkout_type = stay.checkout_type;
    checked_out_at = stay.checked_out_at;
  }

  unfoldable pub assert_active : Stay → Exec orm (Unit {0})
  assert_active stay = guard (is_active_stay stay) stay_not_active

  -- the stay by its id and hotel, for `findStayInHotel` and the reads inside a transaction
  unfoldable pub find_stay : ℕ → ℕ → Exec orm Stay
  find_stay hotel_id id = do
    stay ← gets (λ w. orm.find_one (λ s. s.id == id && s.hotel_id == hotel_id) w.stays)
    from_option stay_not_found stay

  unfoldable pub find_room : ℕ → Exec orm (Option Room)
  find_room id = gets (λ w. orm.find_one (λ r. r.id == id) w.rooms)

  unfoldable pub find_stay_in_hotel : ℕ → ℕ → Exec orm LoadedStay
  find_stay_in_hotel hotel_id id = do
    stay ← find_stay hotel_id id
    room ← find_room stay.room_id
    pure (record { stay = stay; room = room })

  -- `lockHotel` and `loadHotel`
  unfoldable pub load_hotel : ℕ → Exec orm Hotel
  load_hotel hotel_id = do
    hotel ← gets (λ w. orm.find_one (λ h. h.id == hotel_id) w.hotels)
    from_option hotel_not_found hotel

  unfoldable pub assert_dates_valid : Text → Text → Exec orm (Unit {0})
  unfolding text_lt
  assert_dates_valid check_in_date check_out_date =
      guard (text_lt check_in_date check_out_date) invalid_stay_dates

  unfoldable pub lock_available_room : ℕ → ℕ → Exec orm Room
  lock_available_room hotel_id room_id = do
    room ← gets (λ w. orm.find_one (λ r. r.id == room_id && r.hotel_id == hotel_id) w.rooms)
    room ← from_option room_not_found room
    guard (is_available room.status) room_not_available
    occupied ← gets (λ w. orm.find_one (occupies room.id) w.stays)
    guard (is_null occupied) room_occupied
    pure room

  unfoldable pub save_stay : Stay → Exec orm (Unit {0})
  save_stay stay = modify (λ w. record w { stays = orm.save stay w.stays })

  -- `auditLogs.log` on a stay, with the two keys that every entry of a user has
  unfoldable pub audit : String → ℕ → TenantUser → Metadata → Exec orm (Unit {0})
  audit action stay_id actor extra = log orm (record {
    action = action;
    entity_type = "stay";
    entity_id = stay_id;
    actor_id = some actor.id;
    metadata = ("actorType", word "tenant_user") ∷ ("hotelId", number actor.hotel_id) ∷ extra;
  })

  -- the relation of a loaded stay; a missing row is a TypeError in the source
  unfoldable pub loaded_room : Option Room → Exec orm Room
  loaded_room room = from_option internal_error room

  unfoldable pub record_room_change : ℕ → ℕ → Option ℕ → ℕ → Exec orm (Unit {0})
  record_room_change hotel_id stay_id from_room_id to_room_id = modify (λ w. record w {
    room_changes =
        w.room_changes
        ++ record {
          hotel_id = hotel_id;
          stay_id = stay_id;
          from_room_id = from_room_id;
          to_room_id = to_room_id;
          occurred_at = w.now;
        }
          ∷ [];
  })

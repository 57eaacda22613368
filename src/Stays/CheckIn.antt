-- ===== src/Stays/CheckIn.antt =====
-- src/modules/tenant-stays/tenant-stays.service.ts: `checkIn`, `availableRooms`.
use hotello_backend.Common.{
  ℕ, not, ◌&&◌, Option, none, some, List, [], ◌∷◌, ◌++◌, any, filter, Text, ◌==◌, trim,
  trim_or_null,
}
use hotello_backend.Store.{TypeOrm}
use hotello_backend.Clock.{Intl}
use hotello_backend.Model.People.{Hotel, StayType, TenantUser}
use hotello_backend.Model.Rooms.{Room}
use hotello_backend.Model.Stays.{Stay, StayStatus, GuestLanguage}
use hotello_backend.Model.Effects.{Detail}
use hotello_backend.Exec.{Exec, pure, gets, modify, ◌>>=◌, ◌>>◌}
use hotello_backend.Shared.{is_active_stay}
use hotello_backend.Stays.Codes.{issue_unique_code}
use hotello_backend.Stays.Shared.{
  StayView, is_available, to_view, load_hotel, assert_dates_valid, lock_available_room, save_stay,
  audit,
}

pub record CreateStayDto : Type 0 where
  pub room_id : ℕ
  pub guest_name : Text
  pub email : Option Text
  pub phone : Option Text
  pub language : GuestLanguage
  pub guests_count : Option ℕ
  pub note : Option Text
  pub stay_type : Option StayType
  pub check_in_date : Text
  pub check_out_date : Text

-- a stay with the code that is shown once
pub record WithCode : Type 0 where
  pub stay : StayView
  pub code : Text

abbrev pub or_default : StayType → Option StayType → StayType
or_default d none = d
or_default d (some t) = t

-- the row of `repo.create`
unfoldable pub new_stay : ℕ → ℕ → Hotel → Room → ℕ → CreateStayDto → Stay
unfolding trim trim_or_null
new_stay id hotel_id hotel room code_hash dto = record {
  id = id;
  hotel_id = hotel_id;
  room_id = room.id;
  guest_name = trim dto.guest_name;
  email = trim_or_null dto.email;
  phone = trim_or_null dto.phone;
  language = dto.language;
  guests_count = dto.guests_count;
  stay_type = or_default hotel.default_stay_type dto.stay_type;
  note = trim_or_null dto.note;
  code_hash = code_hash;
  check_in_date = dto.check_in_date;
  check_out_date = dto.check_out_date;
  status = StayStatus.active;
  checkout_type = none;
  checked_out_at = none;
  checked_out_by_id = none;
}

module _ (orm : TypeOrm) where
  -- `safeEmit` of the code's event, if the stay has an e-mail address
  unfoldable pub emit_code : Option Text → Stay → Room → Text → Exec orm (Unit {0})
  emit_code none stay room code = pure tt
  emit_code (some email) stay room code = modify (λ w. record w {
    stay_code_events =
        w.stay_code_events
        ++ record {
          stay_id = stay.id;
          hotel_id = stay.hotel_id;
          guest_name = stay.guest_name;
          guest_email = email;
          room_number = room.room_number;
          language = stay.language;
          check_out_date = stay.check_out_date;
          raw_code = code;
        }
          ∷ [];
  })

module _ (orm : TypeOrm) (intl : Intl) (hash : Text → ℕ) where
  unfoldable pub check_in : TenantUser → CreateStayDto → Exec orm WithCode
  check_in actor dto = do
    assert_dates_valid orm dto.check_in_date dto.check_out_date
    hotel ← load_hotel orm actor.hotel_id
    room ← lock_available_room orm actor.hotel_id dto.room_id
    issued ← issue_unique_code orm hash actor.hotel_id
    id ← gets (λ w. orm.generate_id w.stays)
    let stay = new_stay id actor.hotel_id hotel room issued.code_hash dto
    save_stay orm stay
    audit orm "stay.checked_in" stay.id actor (
        ("guestName", Detail.text stay.guest_name)
        ∷ ("roomNumber", Detail.text room.room_number)
        ∷ ("checkInDate", Detail.text stay.check_in_date)
        ∷ ("checkOutDate", Detail.text stay.check_out_date)
        ∷ [])
    emit_code orm stay.email stay room issued.code
    view ← gets (to_view orm intl stay room (some hotel))
    pure (record { stay = view; code = issued.code })

  -- the rooms that `availableRooms` offers, before they are sorted for display
  unfoldable pub available_rooms : TenantUser → Exec orm (List Room)
  unfolding filter any
  available_rooms actor = do
    rooms ←
        gets (λ w. orm.find (λ r. r.hotel_id == actor.hotel_id && is_available r.status) w.rooms)
    active_stays ←
        gets (λ w. orm.find (λ s. s.hotel_id == actor.hotel_id && is_active_stay s) w.stays)
    pure (filter (λ r. not (any (λ s. s.room_id == r.id) active_stays)) rooms)

-- ===== src/Housekeeping/Rooms.antt =====
-- src/modules/housekeeping/housekeeping.service.ts: the helpers that the actions share, and the board
-- card. src/modules/housekeeping/housekeeping-events.service.ts: the analytics row.
use hotello_backend.Common.{
  ℕ, String, Bool, true, false, not, ◌&&◌, ◌||◌, Option, none, some, List, [], ◌∷◌, ◌++◌, find, any,
  Text, ◌==◌,
}
use hotello_backend.Store.{TypeOrm}
use hotello_backend.Model.People.{TenantUser}
use hotello_backend.Model.Rooms.{
  RoomStatus, HousekeepingStatus, clean, needs_cleaning, in_progress, dnd, CleaningType, checkout,
  daily, Room, HousekeepingEventType,
}
use hotello_backend.Model.Effects.{Detail, number, word, Metadata, spread}
use hotello_backend.Exec.{
  World, ErrorCode, room_not_found, Exec, pure, throw, guard, from_option, gets, modify, ◌>>=◌,
  ◌>>◌,
}
use hotello_backend.Exec.{housekeeping_invalid_status, housekeeping_room_dnd}
use hotello_backend.Exec.{housekeeping_assignee_invalid}
use hotello_backend.Housekeeping.Transitions
use hotello_backend.Shared.{is_active_stay, is_id, grants, log}

abbrev pub is_inactive : RoomStatus → Bool
is_inactive RoomStatus.inactive = true
is_inactive _ = false

abbrev pub is_dnd : HousekeepingStatus → Bool
is_dnd dnd = true
is_dnd _ = false

abbrev pub is_clean : HousekeepingStatus → Bool
is_clean clean = true
is_clean _ = false

abbrev pub is_needs_cleaning : HousekeepingStatus → Bool
is_needs_cleaning needs_cleaning = true
is_needs_cleaning _ = false

abbrev pub status_word : HousekeepingStatus → Detail
status_word clean = word "clean"
status_word needs_cleaning = word "needs_cleaning"
status_word in_progress = word "in_progress"
status_word dnd = word "dnd"

abbrev pub type_word : Option CleaningType → Detail
type_word none = Detail.null
type_word (some checkout) = word "checkout"
type_word (some daily) = word "daily"

abbrev pub state_of : Room → Transitions.HkState
state_of room = record { status = room.housekeeping_status; cleaning_type = room.cleaning_type }

abbrev pub code_of : Transitions.HkErrorCode → ErrorCode
code_of Transitions.HkErrorCode.housekeeping_invalid_status = housekeeping_invalid_status
code_of Transitions.HkErrorCode.housekeeping_room_dnd = housekeeping_room_dnd

pub record ActorView : Type 0 where
  pub id : ℕ
  pub name : Text

pub record HousekeepingRoomView : Type 0 where
  pub id : ℕ
  pub room_number : Text
  pub floor : Option ℕ
  pub room_status : RoomStatus
  pub housekeeping_status : HousekeepingStatus
  pub cleaning_type : Option CleaningType
  pub occupied : Bool
  pub assigned_to : Option ActorView
  pub last_cleaned_at : Option ℕ
  pub last_cleaned_by : Option ActorView

-- `actor(id)` of `toViews`
actor : List TenantUser → Option ℕ → Option ActorView
actor users none = none
actor users (some id) = elim (find (λ u. u.id == id) users) [
  | none ↦ none
  | some u ↦ some (record { id = u.id; name = u.name })
]

module _ (orm : TypeOrm) where
  -- `toViews([room])[0]`
  unfoldable pub to_view : Room → World orm → HousekeepingRoomView
  unfolding actor find any
  to_view room w =
      let active_stays = orm.find (λ s. s.room_id == room.id && is_active_stay s) w.stays in
      let users =
        orm.find
          (λ u. is_id room.housekeeping_assigned_to_id u.id || is_id room.last_cleaned_by_id u.id)
          w.users in
      record {
        id = room.id;
        room_number = room.room_number;
        floor = room.floor;
        room_status = room.status;
        housekeeping_status = room.housekeeping_status;
        cleaning_type = room.cleaning_type;
        occupied = any (λ s. s.room_id == room.id) active_stays;
        assigned_to = actor users room.housekeeping_assigned_to_id;
        last_cleaned_at = room.last_cleaned_at;
        last_cleaned_by = actor users room.last_cleaned_by_id;
      }

  -- an unknown id, a room of another hotel and an inactive room are not found alike
  unfoldable pub find_room_in_hotel : ℕ → ℕ → Exec orm Room
  find_room_in_hotel hotel_id id = do
    room ← gets (λ w. orm.find_one (λ r. r.id == id && r.hotel_id == hotel_id) w.rooms)
    room ← from_option room_not_found room
    guard (not (is_inactive room.status)) room_not_found
    pure room

  -- runs the transition matrix on the room's two columns, or throws its code
  unfoldable pub apply : Room → Transitions.HkAction → Exec orm Room
  unfolding Transitions.transition
  apply room action = elim (Transitions.transition (state_of room) action) [
    | Transitions.moved state ↦
        pure
          (record room { housekeeping_status = state.status; cleaning_type = state.cleaning_type })
    | Transitions.refused code ↦ throw (code_of code)
  ]

  unfoldable pub resolve_assignee : ℕ → Option ℕ → Exec orm (Option TenantUser)
  unfolding grants
  resolve_assignee hotel_id none = pure none
  resolve_assignee hotel_id (some assignee_id) = do
    assignee ← gets (λ w. orm.find_one (λ u. u.id == assignee_id && u.hotel_id == hotel_id) w.users)
    assignee ← from_option housekeeping_assignee_invalid assignee
    guard (grants "housekeeping.update" assignee) housekeeping_assignee_invalid
    pure (some assignee)

  unfoldable pub save_room : Room → Exec orm (Unit {0})
  save_room room = modify (λ w. record w { rooms = orm.save room w.rooms })

  unfoldable pub audit : String → Room → Option ℕ → Metadata → Exec orm (Unit {0})
  unfolding log spread
  audit action room actor_id extra = log orm (record {
    action = action;
    entity_type = "room";
    entity_id = room.id;
    actor_id = actor_id;
    metadata =
        spread
          (("actorType", word "tenant_user")
            ∷ ("hotelId", number room.hotel_id)
            ∷ ("housekeepingStatus", status_word room.housekeeping_status)
            ∷ [])
          extra;
  })

  -- `HousekeepingEventsService.record`, whose failures are swallowed
  unfoldable pub record_event :
      Room → HousekeepingEventType → Option CleaningType → Option ℕ → Option ℕ → Exec orm (Unit {0})
  record_event room event_type cleaning_type actor_id assigned_to_id = modify (λ w. record w {
    housekeeping_events =
        w.housekeeping_events
        ++ record {
          hotel_id = room.hotel_id;
          room_id = room.id;
          event_type = event_type;
          cleaning_type = cleaning_type;
          actor_id = actor_id;
          assigned_to_id = assigned_to_id;
          occurred_at = w.now;
        }
          ∷ [];
  })

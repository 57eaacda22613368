-- ===== src/Housekeeping/Vacated.antt =====
-- What `HousekeepingService.onRoomVacated` does to the room: src/modules/housekeeping.
use hotello_backend.Common.{ℕ, ◌≡◌, Option, none, some, ◌&&◌, ◌==◌, arith}
use hotello_backend.Store.{TypeOrm, get-save_self, find_one-get}
use hotello_backend.Model.Rooms.{Room, needs_cleaning, checkout}
use hotello_backend.Exec.{World, final, gets, modify, ◌>>=◌}
use hotello_backend.Exec.Keeps.{Keeps-then, Keeps-final}
use hotello_backend.Housekeeping.Transitions.{transition, vacate}
use hotello_backend.Housekeeping.Rooms.{state_of, save_room}
use hotello_backend.Housekeeping.Hooks.{vacated, on_room_vacated}
use hotello_backend.Housekeeping.Staff.{
  RoomTable, audit-Keeps, record_event-Keeps, notify_staff_available-Keeps,
}

-- the room as the next guest must not find it
abbrev pub vacated_room : Room → Room
vacated_room room = record room {
  housekeeping_status = needs_cleaning;
  cleaning_type = some checkout;
  dnd_set_by_stay_id = none;
}

module _ (orm : TypeOrm) where
  -- what holds of the rooms once the row is saved still holds at the end
  vacated-establishes :
      (J : RoomTable orm → Type 0) (room : Room) (actor : Option ℕ) (w : World orm)
      → J (orm.save (vacated_room room) w.rooms)
      → J (final (vacated orm room actor (transition (state_of room) vacate) w)).rooms
  unfolding vacated transition save_room modify ◌>>=◌
  vacated-establishes J room actor w h =
      Keeps-final {I = λ (v : World orm). J v.rooms}
        (Keeps-then _ _ (audit-Keeps orm J _ _ _ _) (
          Keeps-then _ _ (record_event-Keeps orm J _ _ _ _ _)
            (notify_staff_available-Keeps orm J _ _)))
        (record w { rooms = orm.save (vacated_room room) w.rooms }) h

  -- A stored room of the hotel that a guest leaves, whatever its state and under Do-Not-Disturb too,
  -- ends as needing a checkout cleaning with the Do-Not-Disturb owner removed and every other column
  -- as it was.
  pub on_room_vacated-get :
      (w : World orm) (room : Room) (actor : Option ℕ)
      → orm.get w.rooms room.id ≡ some room
      → orm.get (final (on_room_vacated orm room.id room.hotel_id actor w)).rooms room.id
        ≡ some (vacated_room room)
  unfolding on_room_vacated gets ◌>>=◌
  on_room_vacated-get w room actor stored =
      let found =
        find_one-get orm (λ r. r.id == room.id && r.hotel_id == room.hotel_id) w.rooms room.id room
          (λ x h. ground arith) stored (ground arith) in
      rw found (
        vacated-establishes (λ t. orm.get t room.id ≡ some (vacated_room room)) room actor w
          (get-save_self orm (vacated_room room) w.rooms))

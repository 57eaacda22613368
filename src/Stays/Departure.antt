-- ===== src/Stays/Departure.antt =====
-- A check-out from end to end: `checkout` of src/modules/tenant-stays/tenant-stays.service.ts with the hook
-- of src/modules/housekeeping that it calls.
use hotello_backend.Common.{ℕ, ◌≡◌, refl, sym, Option, some, ◌&&◌, ◌==◌, arith}
use hotello_backend.Store.{TypeOrm, get-save_self, find_one-get}
use hotello_backend.Clock.{Intl}
use hotello_backend.Model.People.{TenantUser}
use hotello_backend.Model.Rooms.{Room}
use hotello_backend.Model.Stays.{Stay, active}
use hotello_backend.Exec.{World, ok}
use hotello_backend.Exec.Total.{
  Total, Returns-ok, Total-pure, Total-gets, Total-guard, Total-modify, Total-when,
  Total-bind_value, Total-then, Total-from_option,
}
use hotello_backend.Shared.{is_active_stay, log, notify, notify_once}
use hotello_backend.Housekeeping.Transitions.{transition, vacate}
use hotello_backend.Housekeeping.Rooms as Rooms
use hotello_backend.Housekeeping.Rooms.{state_of}
use hotello_backend.Housekeeping.Actions.{notify_staff_available}
use hotello_backend.Housekeeping.Hooks.{vacated, on_room_vacated}
use hotello_backend.Housekeeping.Vacated.{vacated_room}
use hotello_backend.Stays.Shared.{
  StayView, find_stay, find_room, find_stay_in_hotel, assert_active, save_stay, audit, loaded_room,
}
use hotello_backend.Stays.Moves.{checked_out_stay, checkout}

module _ (orm : TypeOrm) (room : Room) (stay : Stay) (now : ℕ) where
  -- the two rows of a departure, before and after
  abbrev Rows : World orm → Type 0
  Rows w =
      (w.now ≡ now) × (orm.get w.stays stay.id ≡ some stay) × (orm.get w.rooms room.id ≡ some room)

  abbrev Left : Stay → Room → World orm → Type 0
  Left gone left w = (orm.get w.stays stay.id ≡ some gone) × (orm.get w.rooms room.id ≡ some left)

  vacated-Total :
      (gone : Stay) (actor : Option ℕ)
      → Total
          (Left gone room)
          (λ _. Left gone (vacated_room room))
          (vacated orm room actor (transition (state_of room) vacate))
  unfolding vacated transition Rooms.save_room Rooms.audit Rooms.record_event notify_staff_available
      log notify notify_once
  vacated-Total gone actor =
      Total-then {Q = Left gone (vacated_room room)} _ _
        (Total-modify _ (λ w h. (h.0, get-save_self orm (vacated_room room) w.rooms)))
        (Total-then {Q = Left gone (vacated_room room)} _ _ (Total-modify _ (λ w h. h)) (
          Total-then {Q = Left gone (vacated_room room)} _ _ (Total-modify _ (λ w h. h))
            (Total-when _ _ (Total-modify _ (λ w h. h)) (λ w h. h))))

  room_found :
      (w : World orm) (id hotel_id : ℕ)
      → id ≡ room.id
      → hotel_id ≡ room.hotel_id
      → orm.get w.rooms room.id ≡ some room
      → some room ≡ orm.find_one (λ r. r.id == id && r.hotel_id == hotel_id) w.rooms
  room_found w id hotel_id same own stored =
      sym (find_one-get orm _ w.rooms room.id room (λ x e. ground arith) stored (ground arith))

  on_room_vacated-Total :
      (id hotel_id : ℕ) (gone : Stay) (actor : Option ℕ)
      → id ≡ room.id
      → hotel_id ≡ room.hotel_id
      → Total
          (Left gone room)
          (λ _. Left gone (vacated_room room))
          (on_room_vacated orm id hotel_id actor)
  unfolding on_room_vacated
  on_room_vacated-Total id hotel_id gone actor same own =
      Total-bind_value (some room) _ _
        (Total-gets _ (λ w h. (room_found w id hotel_id same own h.1, h)))
        (vacated-Total gone actor)

  find_stay-Total :
      (hotel_id : ℕ)
      → stay.room_id ≡ room.id
      → stay.hotel_id ≡ hotel_id
      → Total Rows
          (λ l w. (record { stay = stay; room = some room } ≡ l) × Rows w)
          (find_stay_in_hotel orm hotel_id stay.id)
  unfolding find_stay_in_hotel find_stay find_room
  find_stay-Total hotel_id same own =
      Total-bind_value {Q = Rows} stay _ _
        (Total-bind_value {Q = Rows} (some stay) _ _
          (Total-gets _ (λ w h. (
            sym (find_one-get orm _ w.stays stay.id stay (λ x e. ground arith) h.1 (ground arith)),
            h,
          )))
          (Total-from_option _ (some stay) (λ w h. (stay, refl, (refl, h)))))
        (Total-bind_value {Q = Rows} (some room) _ _
          (Total-gets _ (λ w h. (
            sym (find_one-get orm _ w.rooms room.id room (λ x e. ground arith) h.2 (ground arith)),
            h,
          )))
          (Total-pure _ (λ w h. (refl, h))))

  module _ (intl : Intl) (actor : TenantUser) where
    abbrev gone_stay : Stay
    gone_stay = checked_out_stay orm intl now actor.id stay

    checkout-Total :
        stay.status ≡ active
        → stay.room_id ≡ room.id
        → stay.hotel_id ≡ actor.hotel_id
        → room.hotel_id ≡ actor.hotel_id
        → Total Rows (λ _. Left gone_stay (vacated_room room)) (checkout orm intl actor stay.id)
    unfolding checkout assert_active save_stay loaded_room audit log
    checkout-Total live same own here =
        Total-bind_value {Q = Rows} (record { stay = stay; room = some room }) _ _
          (find_stay-Total actor.hotel_id same own)
          (Total-then {Q = Rows} _ _ (Total-guard (is_active_stay stay) _ (ground arith) (λ w h. h))
            (Total-bind_value {Q = Rows} now _ _ (Total-gets _ (λ w h. (sym h.0, h))) (
              Total-then {Q = Left gone_stay room} _ _
                (Total-modify _ (λ w h. (get-save_self orm gone_stay w.stays, h.2)))
                (Total-then _ _
                  (on_room_vacated-Total stay.room_id actor.hotel_id gone_stay _ same (sym here))
                  (Total-bind_value {Q = Left gone_stay (vacated_room room)} room _ _
                    (Total-from_option _ (some room) (λ w h. (room, refl, (refl, h))))
                    (Total-then {Q = Left gone_stay (vacated_room room)} _ _
                      (Total-modify _ (λ w h. h)) (Total-gets _ (λ w h. h))))))))

-- Checking out an active stay of the user's hotel, in a room of that hotel, always succeeds; then the stay
-- is checked out by hand, by the user and now, and its room needs a checkout cleaning with no
-- Do-Not-Disturb owner; no other column of the two rows changes.
pub checkout_leaves :
    (orm : TypeOrm) (intl : Intl) (actor : TenantUser) (room : Room) (stay : Stay) (w : World orm)
    → orm.get w.stays stay.id ≡ some stay
    → orm.get w.rooms room.id ≡ some room
    → stay.status ≡ active
    → stay.room_id ≡ room.id
    → stay.hotel_id ≡ actor.hotel_id
    → room.hotel_id ≡ actor.hotel_id
    → (view : StayView) × (v : World orm) × (checkout orm intl actor stay.id w ≡ ok view v)
      × ((orm.get v.stays stay.id ≡ some (checked_out_stay orm intl w.now actor.id stay))
          × (orm.get v.rooms room.id ≡ some (vacated_room room)))
checkout_leaves orm intl actor room stay w stored there live same own here =
    Returns-ok
      (λ _.
        Left orm room stay w.now (checked_out_stay orm intl w.now actor.id stay)
          (vacated_room room))
      (checkout orm intl actor stay.id w)
      ((checkout-Total orm room stay w.now intl actor live same own here).at w
        (refl, stored, there))

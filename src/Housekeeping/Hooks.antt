-- ===== src/Housekeeping/Hooks.antt =====
-- src/modules/housekeeping/housekeeping.service.ts: bulk assignment, the settings card, the hook that
-- every vacated room goes through, and the guest's Do-Not-Disturb toggle.
use package.text.Mathlib.Text.{◌==◌ as str_eq}
use hotello_backend.Common.{
  ℕ, Bool, true, false, not, ◌&&◌, ◌||◌, Option, none, some, List, [], ◌∷◌, map, any, length, Text,
  ◌==◌, if◌then◌else◌, text_eq,
}
use hotello_backend.Store.{TypeOrm}
use hotello_backend.Clock.{Intl, hotel_local_parts}
use hotello_backend.Model.People.{Hotel, HotelStatus, suspended, TenantUser}
use hotello_backend.Model.Rooms.{Room, checkout, flagged, dnd_set, dnd_cleared}
use hotello_backend.Model.Stays.{Stay}
use hotello_backend.Model.Effects.{Detail, number, word, flag, numbers, change, number_or_null}
use hotello_backend.Exec.{
  World, hotel_unavailable, module_not_enabled, room_not_found, Exec, pure, guard, from_option,
  gets, when, modify, ◌>>=◌, ◌>>◌,
}
use hotello_backend.Shared.{log}
use hotello_backend.Housekeeping.Transitions
use hotello_backend.Housekeeping.Rooms.{
  is_inactive, is_dnd, state_of, status_word, HousekeepingRoomView, to_view, apply,
  resolve_assignee, save_room, audit, record_event,
}
use hotello_backend.Housekeeping.Actions.{id_of, notify_staff_assigned, notify_staff_available}

abbrev includes : List ℕ → ℕ → Bool
includes ids id = any (λ i. i == id) ids

abbrev pub is_suspended : HotelStatus → Bool
is_suspended suspended = true
is_suspended _ = false

module _ (orm : TypeOrm) where
  -- the loop over the found rooms; each is saved with the new assignee
  unfoldable pub assign_all : Option ℕ → List Room → Exec orm (List Room)
  assign_all assignee_id [] = pure []
  assign_all assignee_id (room ∷ rooms) = do
    let saved = record room { housekeeping_assigned_to_id = assignee_id }
    save_room orm saved
    rest ← assign_all assignee_id rooms
    pure (saved ∷ rest)

  abbrev pub first_number : List Room → Detail
  first_number [] = Detail.null
  first_number (room ∷ _) = Detail.text room.room_number

  unfoldable pub bulk_assign : TenantUser → List ℕ → Option ℕ → Exec orm (List HousekeepingRoomView)
  bulk_assign user room_ids assignee_id = do
    assignee ← resolve_assignee orm user.hotel_id assignee_id
    rooms ← gets (λ w.
        orm.find
          (λ r. includes room_ids r.id && r.hotel_id == user.hotel_id && not (is_inactive r.status))
          w.rooms)
    saved ← assign_all (id_of assignee) rooms
    log orm (record {
      action = "housekeeping.assigned";
      entity_type = "room";
      entity_id = user.hotel_id;
      actor_id = some user.id;
      metadata =
          ("actorType", word "tenant_user")
          ∷ ("hotelId", number user.hotel_id)
          ∷ ("bulk", flag true)
          ∷ ("roomIds", numbers (map (λ r. r.id) saved))
          ∷ ("count", number (length saved))
          ∷ ("assigneeId", number_or_null (id_of assignee))
          ∷ [];
    })
    notify_staff_assigned orm user.hotel_id user.id (elim saved [ [] ↦ none | _ ∷ _ ↦ assignee ])
        (("feed", word "rooms")
          ∷ ("count", number (length saved))
          ∷ ("roomNumber", first_number saved)
          ∷ [])
        none
    gets (λ w. map (λ r. to_view orm r w) saved)

  unfoldable pub find_hotel : ℕ → Exec orm Hotel
  find_hotel hotel_id = do
    hotel ← gets (λ w. orm.find_one (λ h. h.id == hotel_id) w.hotels)
    from_option room_not_found hotel

  unfoldable pub get_settings : ℕ → Exec orm Text
  get_settings hotel_id = do hotel ← find_hotel hotel_id; pure hotel.daily_service_time

  unfoldable pub update_settings : TenantUser → Text → Exec orm Text
  update_settings user time = do
    hotel ← find_hotel user.hotel_id
    if text_eq time hotel.daily_service_time then pure hotel.daily_service_time else do
      modify (λ w. record w {
        hotels = orm.save (record hotel { daily_service_time = time }) w.hotels;
      })
      log orm (record {
        action = "hotel.updated";
        entity_type = "hotel";
        entity_id = hotel.id;
        actor_id = some user.id;
        metadata =
            ("actorType", word "tenant_user")
            ∷ ("hotelId", number hotel.id)
            ∷ ("dailyServiceTime", change (Detail.text hotel.daily_service_time) (Detail.text time))
            ∷ [];
      })
      pure time

  abbrev actor_word : Option ℕ → Detail
  actor_word none = word "system"
  actor_word (some _) = word "tenant_user"

  -- the body of the `try` once the room is found and the transition made
  unfoldable pub vacated : Room → Option ℕ → Transitions.HkTransitionResult → Exec orm (Unit {0})
  vacated room actor_id (Transitions.refused _) = pure tt
  vacated room actor_id (Transitions.moved state) = do
    let saved = record room {
      housekeeping_status = state.status;
      cleaning_type = state.cleaning_type;
      dnd_set_by_stay_id = none;
    }
    save_room orm saved
    audit orm "housekeeping.flagged" saved actor_id (
        ("actorType", actor_word actor_id)
        ∷ ("cleaningType", word "checkout")
        ∷ ("reason", word "room_vacated")
        ∷ ("from", status_word room.housekeeping_status)
        ∷ [])
    record_event orm saved flagged (some checkout) actor_id saved.housekeeping_assigned_to_id
    notify_staff_available orm saved none

  unfoldable pub on_room_vacated : ℕ → ℕ → Option ℕ → Exec orm (Unit {0})
  on_room_vacated room_id hotel_id actor_id = do
    room ← gets (λ w. orm.find_one (λ r. r.id == room_id && r.hotel_id == hotel_id) w.rooms)
    elim room [
      | none ↦ pure tt
      | some room ↦
          vacated room actor_id (Transitions.transition (state_of room) Transitions.vacate)
    ]

  -- `assertHousekeepingAvailable`
  unfoldable pub assert_housekeeping_available : ℕ → Exec orm (Unit {0})
  assert_housekeeping_available hotel_id = do
    state ← gets (λ w. w.access hotel_id)
    guard (not (is_suspended state.hotel_status || state.read_only)) hotel_unavailable
    guard (any (λ m. str_eq m "housekeeping") state.enabled_modules) module_not_enabled

  abbrev pub toggle : Bool → Transitions.HkAction
  toggle active = if active then Transitions.dnd_on else Transitions.dnd_off

  -- switching on stamps the hotel-local date, in the default timezone if the hotel is gone
  abbrev pub stamp : Intl → Bool → Stay → Room → World orm → Room
  stamp intl false stay room w = record room { dnd_set_by_stay_id = none }
  stamp intl true stay room w = record room {
    dnd_set_by_stay_id = some stay.id;
    last_daily_flagged_on =
        some
          (hotel_local_parts intl
            (elim (orm.find_one (λ h. h.id == stay.hotel_id) w.hotels) [
              | none ↦ intl.cairo
              | some h ↦ h.timezone
            ])
            w.now).date;
  }

  abbrev pub same : Bool → Bool → Bool
  same true b = b
  same false b = not b

  -- the audit entry and the event of a toggle that changed something
  unfoldable pub toggled : Bool → Stay → Room → Exec orm (Unit {0})
  toggled active stay saved = do
    audit orm (if active then "housekeeping.dnd_set" else "housekeeping.dnd_cleared") saved none
        (("actorType", word "guest") ∷ ("stayId", number stay.id) ∷ [])
    record_event orm saved (if active then dnd_set else dnd_cleared) none none none

  unfoldable pub set_dnd : Intl → Stay → Bool → Exec orm Bool
  set_dnd intl stay active = do
    assert_housekeeping_available stay.hotel_id
    room ←
        gets (λ w. orm.find_one (λ r. r.id == stay.room_id && r.hotel_id == stay.hotel_id) w.rooms)
    room ← from_option room_not_found room
    applied ← apply orm room (toggle active)
    saved ← gets (stamp intl active stay applied)
    save_room orm saved
    when (not (same (is_dnd room.housekeeping_status) active)) (toggled active stay saved)
    pure (is_dnd saved.housekeeping_status)

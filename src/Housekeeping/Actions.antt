-- ===== src/Housekeeping/Actions.antt =====
-- src/modules/housekeeping/housekeeping.service.ts: the staff actions on one room and on a selection.
use hotello_backend.Common.{
  ℕ, Bool, true, not, ◌&&◌, Option, none, some, [], ◌∷◌, Text, ◌==◌, if◌then◌else◌, trim,
  trim_or_null,
}
use hotello_backend.Store.{TypeOrm}
use hotello_backend.Model.People.{TenantUser}
use hotello_backend.Model.Rooms.{
  CleaningType, Room, flagged, cleared, started, completed, interrupted,
}
use hotello_backend.Model.Effects.{
  Detail, number, word, flag, number_or_null, text_or_null, Metadata,
}
use hotello_backend.Exec.{Exec, when, pure, gets, ◌>>=◌, ◌>>◌}
use hotello_backend.Shared.{is_null, notify}
use hotello_backend.Housekeeping.Transitions
use hotello_backend.Housekeeping.Rooms.{
  is_needs_cleaning, type_word, HousekeepingRoomView, to_view, find_room_in_hotel, apply,
  resolve_assignee, save_room, audit, record_event,
}

abbrev pub id_of : Option TenantUser → Option ℕ
id_of none = none
id_of (some u) = some u.id

abbrev pub room_vars : Room → Metadata
room_vars room =
    ("feed", word "rooms")
    ∷ ("id", number room.id)
    ∷ ("roomNumber", Detail.text room.room_number)
    ∷ ("cleaningType", type_word room.cleaning_type)
    ∷ []

module _ (orm : TypeOrm) where
  -- `notifyStaffAssignedSafely`, called for an assignee other than the user
  unfoldable pub notify_staff_assigned :
      ℕ → ℕ → Option TenantUser → Metadata → Option ℕ → Exec orm (Unit {0})
  notify_staff_assigned hotel_id user_id none vars ref_id = pure tt
  notify_staff_assigned hotel_id user_id (some assignee) vars ref_id =
      when (not (assignee.id == user_id)) (
        notify orm hotel_id
          (record {
            stay_ids = [];
            tenant_user_ids = assignee.id ∷ [];
            tenant_permission = none;
            exclude_user_id = none;
            muted_hint_key = none;
          })
          "staff_assigned" ref_id vars)

  -- `notifyStaffAvailableSafely`, for a room that waits for anyone
  unfoldable pub notify_staff_available : Room → Option ℕ → Exec orm (Unit {0})
  notify_staff_available room exclude_user_id =
      when (is_null room.housekeeping_assigned_to_id && is_needs_cleaning room.housekeeping_status)
        (notify orm room.hotel_id
          (record {
            stay_ids = [];
            tenant_user_ids = [];
            tenant_permission = some "housekeeping.update";
            exclude_user_id = exclude_user_id;
            muted_hint_key = some "staffPush.availableMuted";
          })
          "staff_available" (some room.id) (room_vars room))

  unfoldable pub flag_room :
      TenantUser → ℕ → CleaningType → Option Text → Exec orm HousekeepingRoomView
  flag_room user id cleaning_type reason = do
    room ← find_room_in_hotel orm user.hotel_id id
    saved ← apply orm room (Transitions.flag cleaning_type)
    save_room orm saved
    audit orm "housekeeping.flagged" saved (some user.id) (
        ("actorType", word "tenant_user")
        ∷ ("cleaningType", type_word (some cleaning_type))
        ∷ ("reason", text_or_null (trim_or_null reason))
        ∷ [])
    record_event orm saved flagged (some cleaning_type) (some user.id)
        saved.housekeeping_assigned_to_id
    notify_staff_available saved (some user.id)
    gets (to_view orm saved)

  unfoldable pub clear_room : TenantUser → ℕ → Option Text → Exec orm HousekeepingRoomView
  clear_room user id reason = do
    room ← find_room_in_hotel orm user.hotel_id id
    saved ← apply orm room Transitions.clear
    save_room orm saved
    audit orm "housekeeping.cleared" saved (some user.id)
        (("actorType", word "tenant_user") ∷ ("reason", text_or_null (trim_or_null reason)) ∷ [])
    record_event orm saved cleared none (some user.id) saved.housekeeping_assigned_to_id
    gets (to_view orm saved)

  -- starting an unowned room claims it
  abbrev pub claim : ℕ → Room → Room
  claim user_id room =
      if is_null room.housekeeping_assigned_to_id
      then record room { housekeeping_assigned_to_id = some user_id }
      else room

  abbrev is_owner : ℕ → Option ℕ → Bool
  is_owner user_id owner = elim owner [ none ↦ not true | some id ↦ id == user_id ]

  unfoldable pub start : TenantUser → ℕ → Exec orm HousekeepingRoomView
  start user id = do
    room ← find_room_in_hotel orm user.hotel_id id
    applied ← apply orm room Transitions.start
    let saved = claim user.id applied
    save_room orm saved
    audit orm "housekeeping.started" saved (some user.id) (
        ("actorType", word "tenant_user")
        ∷ ("autoAssigned", flag (is_owner user.id saved.housekeeping_assigned_to_id))
        ∷ [])
    record_event orm saved started none (some user.id) saved.housekeeping_assigned_to_id
    gets (to_view orm saved)

  unfoldable pub complete : TenantUser → ℕ → Exec orm HousekeepingRoomView
  complete user id = do
    room ← find_room_in_hotel orm user.hotel_id id
    applied ← apply orm room Transitions.complete
    now ← gets (λ w. w.now)
    let saved = record applied {
      last_cleaned_at = some now;
      last_cleaned_by_id = some user.id;
      housekeeping_assigned_to_id = none;
    }
    save_room orm saved
    audit orm "housekeeping.completed" saved (some user.id)
        (("actorType", word "tenant_user") ∷ ("cleaningType", type_word room.cleaning_type) ∷ [])
    record_event orm saved completed room.cleaning_type (some user.id)
        room.housekeeping_assigned_to_id
    gets (to_view orm saved)

  unfoldable pub interrupt : TenantUser → ℕ → Text → Exec orm HousekeepingRoomView
  interrupt user id reason = do
    room ← find_room_in_hotel orm user.hotel_id id
    saved ← apply orm room Transitions.interrupt
    save_room orm saved
    audit orm "housekeeping.interrupted" saved (some user.id)
        (("actorType", word "tenant_user") ∷ ("reason", Detail.text (trim reason)) ∷ [])
    record_event orm saved interrupted none (some user.id) saved.housekeeping_assigned_to_id
    gets (to_view orm saved)

  unfoldable pub assign : TenantUser → ℕ → Option ℕ → Exec orm HousekeepingRoomView
  assign user id assignee_id = do
    room ← find_room_in_hotel orm user.hotel_id id
    assignee ← resolve_assignee orm user.hotel_id assignee_id
    let saved = record room { housekeeping_assigned_to_id = id_of assignee }
    save_room orm saved
    audit orm "housekeeping.assigned" saved (some user.id)
        (("actorType", word "tenant_user") ∷ ("assigneeId", number_or_null (id_of assignee)) ∷ [])
    notify_staff_assigned saved.hotel_id user.id assignee (room_vars saved) (some saved.id)
    gets (to_view orm saved)

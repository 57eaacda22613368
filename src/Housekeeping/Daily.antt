-- ===== src/Housekeeping/Daily.antt =====
-- src/modules/housekeeping/housekeeping-scheduler.service.ts: the daily job. One hotel is worked in two
-- passes: rooms whose Do-Not-Disturb has expired are released, then clean occupied rooms are flagged.
pub mod Sound
pub mod Passes
pub mod Served
pub mod Again
use hotello_backend.Common.{
  ℕ, ◌+◌, Bool, false, not, ◌&&◌, Option, none, some, List, [], ◌∷◌, map, any, length, Text, ◌==◌,
  ltb, if◌then◌else◌, text_eq,
}
use hotello_backend.Store.{TypeOrm}
use hotello_backend.Clock.{Intl, hotel_local_parts, minutes_of}
use hotello_backend.Model.People.{Hotel}
use hotello_backend.Model.Rooms.{daily, Room, flagged, dnd_cleared}
use hotello_backend.Model.Effects.{Detail, number, word, flag}
use hotello_backend.Exec.{Exec, when, pure, gets, ◌>>=◌, ◌>>◌}
use hotello_backend.Shared.{is_active_stay, log, notify_once}
use hotello_backend.Housekeeping.Transitions
use hotello_backend.Housekeeping.Transitions.{
  HkState, HkTransitionResult, moved, refused, transition,
}
use hotello_backend.Housekeeping.Rooms.{
  is_dnd, is_clean, state_of, status_word, save_room, record_event,
}
use hotello_backend.Housekeeping.Hooks.{is_suspended}

pub record DailyCounts : Type 0 where
  pub flagged : ℕ
  pub released : ℕ

-- `room.lastDailyFlaggedOn === localDate`
unfoldable pub is_stamped : Text → Option Text → Bool
unfolding text_eq
is_stamped date none = false
is_stamped date (some d) = text_eq d date

-- `occupiedRoomIds.has(id)`
unfoldable pub is_occupied : List ℕ → ℕ → Bool
unfolding any
is_occupied occupied id = any (λ i. i == id) occupied

-- the room that a release writes: the state that the first transition gave, flagged again when
-- it came out clean and is occupied
unfoldable pub released_room : Text → Bool → HkState → Room → Room
unfolding transition
released_room date re_flagged state room =
    let next : HkTransitionResult = transition state (Transitions.flag daily) in
    let state' : HkState =
      if re_flagged then elim next [ moved s ↦ s | refused _ ↦ state ] else state in
    record room {
      housekeeping_status = state'.status;
      cleaning_type = state'.cleaning_type;
      dnd_set_by_stay_id = none;
      last_daily_flagged_on = some date;
    }

unfoldable pub flagged_room : Text → HkState → Room → Room
flagged_room date state room = record room {
  housekeeping_status = state.status;
  cleaning_type = state.cleaning_type;
  last_daily_flagged_on = some date;
}

module _ (orm : TypeOrm) (hotel : Hotel) (date : Text) where
  -- the audit entry and the events of one release
  unfoldable pub log_release : Bool → Room → Exec orm (Unit {0})
  log_release re_flagged saved = do
    log orm (record {
      action = "housekeeping.dnd_cleared";
      entity_type = "room";
      entity_id = saved.id;
      actor_id = none;
      metadata =
          ("actorType", word "system")
          ∷ ("hotelId", number hotel.id)
          ∷ ("reason", word "daily_service_hour")
          ∷ ("reFlagged", flag re_flagged)
          ∷ ("housekeepingStatus", status_word saved.housekeeping_status)
          ∷ [];
    })
    record_event orm saved dnd_cleared none none none
    when re_flagged (record_event orm saved flagged (some daily) none none)

  unfoldable pub log_flag : Room → Exec orm (Unit {0})
  log_flag saved = do
    log orm (record {
      action = "housekeeping.flagged";
      entity_type = "room";
      entity_id = saved.id;
      actor_id = none;
      metadata =
          ("actorType", word "system")
          ∷ ("hotelId", number hotel.id)
          ∷ ("cleaningType", word "daily")
          ∷ ("reason", word "daily_service_hour")
          ∷ ("housekeepingStatus", status_word saved.housekeeping_status)
          ∷ [];
    })
    record_event orm saved flagged (some daily) none none

  -- one round of the first loop
  unfoldable pub release : List ℕ → Room → DailyCounts → Exec orm DailyCounts
  release occupied room counts =
      if is_stamped date room.last_daily_flagged_on
      then pure counts
      else elim (transition (state_of room) Transitions.dnd_off) [
        | refused _ ↦ pure counts
        | moved state ↦ do
          let re_flagged = is_clean state.status && is_occupied occupied room.id
          let saved = released_room date re_flagged state room
          save_room orm saved
          log_release re_flagged saved
          pure (record {
            flagged = if re_flagged then counts.flagged + 1 else counts.flagged;
            released = counts.released + 1;
          })
      ]

  -- one round of the second loop
  unfoldable pub flag_daily : Room → DailyCounts → Exec orm DailyCounts
  flag_daily room counts =
      if is_stamped date room.last_daily_flagged_on
      then pure counts
      else elim (transition (state_of room) (Transitions.flag daily)) [
        | refused _ ↦ pure counts
        | moved state ↦ do
          let saved = flagged_room date state room
          save_room orm saved
          log_flag saved
          pure (record counts { flagged = counts.flagged + 1 })
      ]

  unfoldable pub release_all : List ℕ → List Room → DailyCounts → Exec orm DailyCounts
  release_all occupied [] counts = pure counts
  release_all occupied (room ∷ rooms) counts = do
    counts' ← release occupied room counts
    release_all occupied rooms counts'

  unfoldable pub flag_all : List Room → DailyCounts → Exec orm DailyCounts
  flag_all [] counts = pure counts
  flag_all (room ∷ rooms) counts = do counts' ← flag_daily room counts; flag_all rooms counts'

  unfoldable pub process_hotel : Exec orm DailyCounts
  process_hotel = do
    active_stays ← gets (λ w. orm.find (λ s. s.hotel_id == hotel.id && is_active_stay s) w.stays)
    let occupied = map (λ s. s.room_id) active_stays
    dnd_rooms ←
        gets (λ w. orm.find (λ r. r.hotel_id == hotel.id && is_dnd r.housekeeping_status) w.rooms)
    counts ← release_all occupied dnd_rooms (record { flagged = 0; released = 0 })
    if length occupied == 0 then pure counts else do
      candidates ← gets (λ w.
          orm.find
            (λ r.
              is_occupied occupied r.id && r.hotel_id == hotel.id && is_clean r.housekeeping_status)
            w.rooms)
      flag_all candidates counts

module _ (orm : TypeOrm) (intl : Intl) where
  -- one hotel of `runDailyService`; before the service hour nothing is done
  unfoldable pub serve_hotel : Hotel → DailyCounts → Exec orm DailyCounts
  serve_hotel hotel counts = do
    local ← gets (λ w. hotel_local_parts intl hotel.timezone w.now)
    if ltb local.minutes (minutes_of hotel.daily_service_time) then pure counts else do
      done ← process_hotel orm hotel local.date
      when (ltb 0 done.flagged) (
          notify_once orm (word "staff_daily" ∷ number hotel.id ∷ Detail.text local.date ∷ [])
            hotel.id
            (record {
              stay_ids = [];
              tenant_user_ids = [];
              tenant_permission = some "housekeeping.update";
              exclude_user_id = none;
              muted_hint_key = some "staffPush.availableMuted";
            })
            "staff_available" none (("feed", word "rooms") ∷ ("count", number done.flagged) ∷ []))
      pure (record {
        flagged = counts.flagged + done.flagged;
        released = counts.released + done.released;
      })

  unfoldable pub serve_all : List Hotel → DailyCounts → Exec orm DailyCounts
  serve_all [] counts = pure counts
  serve_all (hotel ∷ hotels) counts = do
    counts' ← serve_hotel hotel counts
    serve_all hotels counts'

  unfoldable pub run_daily_service : Exec orm DailyCounts
  run_daily_service = do
    hotels ← gets (λ w. orm.find (λ h. not (is_suspended h.status)) w.hotels)
    serve_all hotels (record { flagged = 0; released = 0 })

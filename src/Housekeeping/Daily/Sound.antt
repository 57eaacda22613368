-- ===== src/Housekeeping/Daily/Sound.antt =====
-- The daily job keeps every room sound.
use hotello_backend.Common.{
  ℕ, ◌≡◌, refl, ◌+◌, Bool, ◌&&◌, List, [], ◌∷◌, Text, All, arith, ◌==◌, length, ltb, map,
  if◌then◌else◌,
}
use hotello_backend.Store.{TypeOrm, find-All}
use hotello_backend.Clock.{Intl, minutes_of}
use hotello_backend.Model.People.{Hotel}
use hotello_backend.Model.Rooms.{Room, daily}
use hotello_backend.Exec.{World, pure, ◌>>◌}
use hotello_backend.Exec.Keeps.{
  Keeps, Any, Keeps-pure, Keeps-gets, Keeps-when, Keeps-if, Keeps-bind, Keeps-then,
}
use hotello_backend.Housekeeping.Transitions
use hotello_backend.Housekeeping.Transitions.{
  HkState, HkTransitionResult, moved, refused, transition, dnd_off,
}
use hotello_backend.Housekeeping.Rooms.{is_clean, state_of, save_room}
use hotello_backend.Housekeeping.Daily.{
  DailyCounts, is_stamped, is_occupied, released_room, flagged_room, log_release, log_flag, release,
  flag_daily, release_all, flag_all, process_hotel, serve_hotel, serve_all, run_daily_service,
}
use hotello_backend.Housekeeping.Staff.{log-Keeps, record_event-Keeps, notify_once-Keeps}
use hotello_backend.Housekeeping.Sound.{IsSound, AllSound}
use hotello_backend.Housekeeping.System.{J, save-Keeps}

pub released_room-IsSound :
    (date : Text) (occupied : Bool) (room : Room) (s : HkState)
    → transition (state_of room) dnd_off ≡ moved s
    → IsSound room
    → IsSound (released_room date (is_clean s.status && occupied) s room)
unfolding released_room transition
released_room-IsSound date occupied room s e p = ground arith

pub flagged_room-IsSound :
    (date : Text) (room : Room) (s : HkState)
    → transition (state_of room) (Transitions.flag daily) ≡ moved s
    → IsSound room
    → IsSound (flagged_room date s room)
unfolding flagged_room transition
flagged_room-IsSound date room s e p = ground arith

module _ (orm : TypeOrm) (hotel : Hotel) (date : Text) where
  log_release-Keeps :
      (again : Bool) (r : Room) → Keeps (AllSound orm) Any (log_release orm hotel date again r)
  unfolding log_release
  log_release-Keeps again r = Keeps-then _ _ (log-Keeps orm (J orm) _) (
      Keeps-then _ _ (record_event-Keeps orm (J orm) _ _ _ _ _)
        (Keeps-when _ _ (record_event-Keeps orm (J orm) _ _ _ _ _)))

  log_flag-Keeps : (r : Room) → Keeps (AllSound orm) Any (log_flag orm hotel date r)
  unfolding log_flag
  log_flag-Keeps r =
      Keeps-then _ _ (log-Keeps orm (J orm) _) (record_event-Keeps orm (J orm) _ _ _ _ _)

  release-Keeps :
      (occupied : List ℕ) (room : Room) (counts : DailyCounts)
      → IsSound room
      → Keeps (AllSound orm) Any (release orm hotel date occupied room counts)
  unfolding release
  release-Keeps occupied room counts p =
      Keeps-if (is_stamped date room.last_daily_flagged_on) _ _ (λ _. Keeps-pure counts tt)
        λ _. go (transition (state_of room) dnd_off) refl
    where
      go :
          (t : HkTransitionResult)
          → transition (state_of room) dnd_off ≡ t
          → Keeps {A = DailyCounts} (AllSound orm) Any (elim t [
            | refused _ ↦ pure counts
            | moved state ↦ do
              let re_flagged = is_clean state.status && is_occupied occupied room.id
              let saved = released_room date re_flagged state room
              save_room orm saved
              log_release orm hotel date re_flagged saved
              pure (record {
                flagged = if re_flagged then counts.flagged + 1 else counts.flagged;
                released = counts.released + 1;
              })
          ])
      go (refused _) e = Keeps-pure counts tt
      go (moved s) e =
          Keeps-then _ _ (save-Keeps orm _ (released_room-IsSound date _ room s e p))
            (Keeps-then _ _ (log_release-Keeps _ _) (Keeps-pure _ tt))

  flag_daily-Keeps :
      (room : Room) (counts : DailyCounts)
      → IsSound room
      → Keeps (AllSound orm) Any (flag_daily orm hotel date room counts)
  unfolding flag_daily
  flag_daily-Keeps room counts p =
      Keeps-if (is_stamped date room.last_daily_flagged_on) _ _ (λ _. Keeps-pure counts tt)
        λ _. go (transition (state_of room) (Transitions.flag daily)) refl
    where
      go :
          (t : HkTransitionResult)
          → transition (state_of room) (Transitions.flag daily) ≡ t
          → Keeps {A = DailyCounts} (AllSound orm) Any (elim t [
            | refused _ ↦ pure counts
            | moved state ↦ do
              let saved = flagged_room date state room
              save_room orm saved
              log_flag orm hotel date saved
              pure (record counts { flagged = counts.flagged + 1 })
          ])
      go (refused _) e = Keeps-pure counts tt
      go (moved s) e =
          Keeps-then _ _ (save-Keeps orm _ (flagged_room-IsSound date room s e p))
            (Keeps-then _ _ (log_flag-Keeps _) (Keeps-pure _ tt))

  release_all-Keeps :
      (occupied : List ℕ) (rooms : List Room) (counts : DailyCounts)
      → All IsSound rooms
      → Keeps (AllSound orm) Any (release_all orm hotel date occupied rooms counts)
  unfolding release_all
  release_all-Keeps occupied [] counts h = Keeps-pure counts tt
  release_all-Keeps occupied (room ∷ rooms) counts (p, h) =
      Keeps-bind {P = Any} _ _ (release-Keeps occupied room counts p)
        λ counts' _. release_all-Keeps occupied rooms counts' h

  flag_all-Keeps :
      (rooms : List Room) (counts : DailyCounts)
      → All IsSound rooms
      → Keeps (AllSound orm) Any (flag_all orm hotel date rooms counts)
  unfolding flag_all
  flag_all-Keeps [] counts h = Keeps-pure counts tt
  flag_all-Keeps (room ∷ rooms) counts (p, h) =
      Keeps-bind {P = Any} _ _ (flag_daily-Keeps room counts p)
        λ counts' _. flag_all-Keeps rooms counts' h

  queried :
      (test : Room → Bool) (w : World orm) → AllSound orm w → All IsSound (orm.find test w.rooms)
  queried test w h = find-All orm IsSound test w.rooms (λ k r stored _. h k r stored)

  process_hotel-Keeps : Keeps (AllSound orm) Any (process_hotel orm hotel date)
  unfolding process_hotel
  process_hotel-Keeps = Keeps-bind {P = Any} _ _ (Keeps-gets _ (λ w h. tt)) λ stays _.
      Keeps-bind {P = All IsSound} _ _ (Keeps-gets _ (λ w h. queried _ w h)) λ rooms p.
        Keeps-bind {P = Any} _ _ (release_all-Keeps _ rooms _ p) λ counts _.
          Keeps-if (length (map (λ s. s.room_id) stays) == 0) _ _ (λ _. Keeps-pure counts tt)
            λ _.
              Keeps-bind {P = All IsSound} _ _ (Keeps-gets _ (λ w h. queried _ w h))
                λ rooms' p'. flag_all-Keeps rooms' counts p'

module _ (orm : TypeOrm) (intl : Intl) where
  serve_hotel-Keeps :
      (hotel : Hotel) (counts : DailyCounts)
      → Keeps (AllSound orm) Any (serve_hotel orm intl hotel counts)
  unfolding serve_hotel
  serve_hotel-Keeps hotel counts = Keeps-bind {P = Any} _ _ (Keeps-gets _ (λ w h. tt)) λ local _.
      Keeps-if (ltb local.minutes (minutes_of hotel.daily_service_time)) _ _
        (λ _. Keeps-pure counts tt)
        λ _. Keeps-bind {P = Any} _ _ (process_hotel-Keeps orm hotel local.date) λ done _.
          Keeps-then _ _ (Keeps-when _ _ (notify_once-Keeps orm (J orm) _ _ _ _ _ _))
            (Keeps-pure _ tt)

  serve_all-Keeps :
      (hotels : List Hotel) (counts : DailyCounts)
      → Keeps (AllSound orm) Any (serve_all orm intl hotels counts)
  unfolding serve_all
  serve_all-Keeps [] counts = Keeps-pure counts tt
  serve_all-Keeps (hotel ∷ hotels) counts =
      Keeps-bind {P = Any} _ _ (serve_hotel-Keeps hotel counts)
        λ counts' _. serve_all-Keeps hotels counts'

  pub run_daily_service-Keeps : Keeps (AllSound orm) Any (run_daily_service orm intl)
  unfolding run_daily_service
  run_daily_service-Keeps =
      Keeps-bind {P = Any} _ _ (Keeps-gets _ (λ w h. tt)) λ hotels _. serve_all-Keeps hotels _

-- ===== src/Witnesses/Housekeeping.antt =====
-- The theorems on housekeeping, applied.
use hotello_backend.Common.{[], ◌∷◌, ◌≡◌, inr, true, none, refl, some, inl, arith}
use hotello_backend.Model.Rooms.{Room, dnd, clean, needs_cleaning, in_progress, daily}
use hotello_backend.Housekeeping.Transitions.{transition, start}
use hotello_backend.Housekeeping.Transitions.Matrix.{IsCoherent, transition-IsCoherent}
use hotello_backend.Housekeeping.Controller
use hotello_backend.Housekeeping.Sound.{AllSound}
use hotello_backend.Housekeeping.Isolation.{handle_isolated}
use hotello_backend.Housekeeping.Rooms.{save_room, record_event}
use hotello_backend.Shared.{log}
use hotello_backend.Witnesses.Database.{database}
use hotello_backend.Housekeeping.Reach.{here, next, daily_job, Reach-AllSound}
use hotello_backend.Housekeeping.Daily.{
  release_all, release, log_release, is_occupied, flag_all, released_room, flag_daily, DailyCounts,
  is_stamped, process_hotel, run_daily_service,
}
use hotello_backend.Housekeeping.Daily.Served.{process_hotel_serves}
use hotello_backend.Housekeeping.Daily.Again.{nothing, process_hotel_twice}
use hotello_backend.Exec.{◌>>=◌, World, final, ok}
use hotello_backend.Housekeeping.Vacated.{vacated_room, on_room_vacated-get}
use hotello_backend.Housekeeping.Hooks.{on_room_vacated}
use hotello_backend.Witnesses.Samples.{
  frozen, the_hotel, the_room, the_stay, today, the_user, the_world, the_world-AllSound,
}

transition-IsCoherent_example :
    IsCoherent (record { status = in_progress; cleaning_type = some daily })
unfolding transition
transition-IsCoherent_example =
    transition-IsCoherent (record { status = needs_cleaning; cleaning_type = some daily })
      (record { status = in_progress; cleaning_type = some daily }) start
      (record { typed = λ _ e. cc; untyped = λ e. cc }) refl

handle_isolated_example :
    database.get {key = λ (r : Room). r.id}
      (final (Controller.handle database the_user 8 Controller.start the_world)).rooms
      7
    ≡ some the_room
handle_isolated_example =
    handle_isolated database the_user 8 Controller.start the_world 7 (inl (λ e. omega arith))

Reach-AllSound_example : AllSound database (final (run_daily_service database frozen the_world))
Reach-AllSound_example =
    Reach-AllSound database frozen the_world (final (run_daily_service database frozen the_world))
      (next here (daily_job the_world)) the_world-AllSound

on_room_vacated-get_example :
    database.get {key = λ (r : Room). r.id}
      (final (on_room_vacated database 7 1 none the_world)).rooms
      7
    ≡ some (vacated_room the_room)
on_room_vacated-get_example = on_room_vacated-get database the_world the_room none refl

-- cleaned after today's flag
abbrev cleaned_room : Room
cleaned_room = record the_room {
  housekeeping_status = clean;
  cleaning_type = none;
  last_daily_flagged_on = some today;
}

-- under Do-Not-Disturb, and not seen by the job
abbrev closed_room : Room
closed_room = record the_room {
  id = 8;
  housekeeping_status = dnd;
  cleaning_type = none;
  last_daily_flagged_on = none;
}

abbrev morning : World database
morning = record the_world { rooms = cleaned_room ∷ closed_room ∷ [] }

process_hotel_serves_example :
    ((n : DailyCounts) × (v : World database) × (process_hotel database the_hotel today morning
        ≡ ok n v))
    × (is_stamped today cleaned_room.last_daily_flagged_on ≡ true)
unfolding process_hotel ◌>>=◌ release_all release is_stamped transition save_room log_release log
    record_event is_occupied flag_all released_room flag_daily
process_hotel_serves_example =
    process_hotel_serves database the_hotel today morning 7 cleaned_room refl refl
      (inr (refl, (the_stay.id, the_stay, refl, refl, refl, refl)))

process_hotel_twice_example :
    process_hotel database the_hotel today (final (process_hotel database the_hotel today morning))
    ≡ ok nothing (final (process_hotel database the_hotel today morning))
process_hotel_twice_example = process_hotel_twice database the_hotel today morning

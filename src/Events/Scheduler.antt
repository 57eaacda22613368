-- ===== src/Events/Scheduler.antt =====
-- src/modules/events/event-scheduler.service.ts: a published event whose end has passed is completed. The
-- guard against overlapping ticks belongs to the process and is left out: a tick is one run of
-- `transition`.
use hotello_backend.Common.{
  ℕ, ◌+◌, not, Option, none, some, List, [], ◌∷◌, Text, text_lt, ◌==◌, if◌then◌else◌,
}
use hotello_backend.Store.{TypeOrm}
use hotello_backend.Clock.{Intl}
use hotello_backend.Model.Events.{Event}
use hotello_backend.Model.Effects.{word, number}
use hotello_backend.Exec.{Exec, pure, gets, from_option, ◌>>=◌, ◌>>◌, internal_error}
use hotello_backend.Shared.{log}
use hotello_backend.Events.Time.{hotel_local_stamp, add_minutes_local}
use hotello_backend.Events.Rows.{is_published, completed_event}
use hotello_backend.Events.Manage.Lookup.{save_event}

-- `endAtLocal ?? addMinutesLocal(startAtLocal, 180)`
unfoldable pub threshold : Text → Option Text → Option Text
unfolding add_minutes_local
threshold start none = add_minutes_local start 180
threshold start (some end) = some end

module _ (orm : TypeOrm) (intl : Intl) where
  -- one event of the loop; its `hotel` relation is loaded with it, and a missing row is a TypeError
  unfoldable pub complete_event : ℕ → Event → ℕ → Exec orm ℕ
  complete_event now event completed = do
    hotel ← gets (λ w. orm.find_one (λ h. h.id == event.hotel_id) w.hotels)
    hotel ← from_option internal_error hotel
    end ← from_option internal_error (threshold event.start_at_local event.end_at_local)
    if not (text_lt end (hotel_local_stamp intl hotel.timezone now)) then pure completed else do
      save_event orm (completed_event now event)
      log orm (record {
        action = "event.completed";
        entity_type = "event";
        entity_id = event.id;
        actor_id = none;
        metadata = ("actorType", word "system") ∷ ("hotelId", number event.hotel_id) ∷ [];
      })
      pure (completed + 1)

  unfoldable pub complete_all : ℕ → List Event → ℕ → Exec orm ℕ
  complete_all now [] completed = pure completed
  complete_all now (event ∷ events) completed = do
    completed' ← complete_event now event completed
    complete_all now events completed'

  unfoldable pub transition : ℕ → Exec orm ℕ
  transition now = do
    candidates ← gets (λ w. orm.find (λ e. is_published e.status) w.events)
    complete_all now candidates 0

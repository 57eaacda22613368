-- ===== src/Subscriptions/Daily.antt =====
-- The daily run of src/modules/subscriptions/trial-expiry.service.ts as a whole: what it does to every
-- subscription, and what it takes from a hotel.
use hotello_backend.Common.{
  ℕ, ◌≡◌, refl, sym, ap, ◌∙◌, arith, true, ◌||◌, some, ◌++◌, map, if◌then◌else◌,
}
use hotello_backend.Store.{TypeOrm}
use hotello_backend.Clock.{Intl}
use hotello_backend.Model.People.{Hotel, AccessState}
use hotello_backend.Model.Stays.{Stay}
use hotello_backend.Model.Subscriptions.{Subscription}
use hotello_backend.Exec.{World, Outcome, ok, err, hotel_unavailable, final, ◌>>=◌}
use hotello_backend.Events.Guests.{BookEventDto, book}
use hotello_backend.Events.Rows.{assert_available}
use hotello_backend.Housekeeping.Hooks.{is_suspended}
use hotello_backend.Subscriptions.Rows.{is_open, is_overdue, expired}
use hotello_backend.Subscriptions.Trials.{handle_daily_expiry}
use hotello_backend.Subscriptions.Access.{load_state}
use hotello_backend.Subscriptions.Changes.{view, IsCurrent}
use hotello_backend.Subscriptions.Changes.{to_expire}
use hotello_backend.Subscriptions.Single.{OneOpen, OneOpen-IsCurrent, OneOpen-IsKept}
use hotello_backend.Subscriptions.Handlers.Reminders.{reminders, running_rows, reminded}
use hotello_backend.Subscriptions.Handlers.Runs.{
  expiry_notice, after_expiry, overdue_rows, after_expiry_notices, handle_daily_expiry_run,
  handle_daily_expiry_row, handle_daily_expiry_keeps,
}

module _ (orm : TypeOrm) (w : World orm) where
  -- The daily run never throws. It expires exactly the stored trials whose end has passed, the closed ones
  -- of a hotel that has long moved to another plan included, and leaves every other subscription as it
  -- is. It sends one reminder for each open trial that still runs and has at most seven days left, of the tier 7, 3 or 1
  -- that is the smallest the days left do not exceed, and then one notice for each trial that it
  -- expires.
  pub handle_daily_expiry_all :
      (v : World orm) × (handle_daily_expiry orm w ≡ ok tt v)
      × ((k : ℕ) (r : Subscription)
          → orm.get w.subscriptions k ≡ some r
          → orm.get v.subscriptions k ≡ some (if is_overdue w.now r then expired r else r))
      × (v.trial_notices
          ≡ (w.trial_notices ++ reminders orm w.now (running_rows orm w))
            ++ map expiry_notice (overdue_rows orm w))
  handle_daily_expiry_all = (
    after_expiry orm (overdue_rows orm w) (reminded orm w),
    handle_daily_expiry_run orm w,
    λ k r stored.
        ap (λ (o : Outcome (World orm) (Unit {0})). orm.get (view orm (final o)) k)
          (sym (handle_daily_expiry_run orm w))
        ∙ handle_daily_expiry_row orm w k r stored,
    after_expiry_notices orm (overdue_rows orm w) (reminded orm w),
  )

  -- When the current subscription of a hotel is a trial whose end has passed, the hotel is read-only after the
  -- daily run, if it has no other open subscription.
  pub handle_daily_expiry_locks :
      (k : ℕ) (s : Subscription)
      → OneOpen orm w.subscriptions
      → orm.get w.subscriptions k ≡ some s
      → is_open s ≡ true
      → is_overdue w.now s ≡ true
      → (load_state orm s.hotel_id (final (handle_daily_expiry orm w))).read_only ≡ true
  unfolding load_state
  handle_daily_expiry_locks k s single stored live late =
      let v = final (handle_daily_expiry orm w) in
      let row : orm.get v.subscriptions k ≡ some (expired s) =
        handle_daily_expiry_row orm w k s stored ∙ ap some (rw late refl) in
      let found : IsCurrent orm s.hotel_id v.subscriptions (some (expired s)) =
        OneOpen-IsCurrent orm v.subscriptions k (expired s)
          (handle_daily_expiry_keeps orm w (OneOpen orm) (OneOpen-IsKept orm (to_expire w.now))
            single)
          row live in
      rw found refl

  -- When the current subscription of a hotel is a trial whose end has passed, it has no other open one, and
  -- its access state is loaded after the daily run, its guests book no event: the call is refused as
  -- hotel_unavailable, whatever it asks for, and nothing is written.
  pub handle_daily_expiry_stops_booking :
      (k : ℕ) (s : Subscription)
      → OneOpen orm w.subscriptions
      → orm.get w.subscriptions k ≡ some s
      → is_open s ≡ true
      → is_overdue w.now s ≡ true
      → (x : World orm)
      → x.access s.hotel_id ≡ load_state orm s.hotel_id (final (handle_daily_expiry orm w))
      → (intl : Intl) (stay : Stay) (hotel : Hotel) (id : ℕ) (dto : BookEventDto) (now : ℕ)
      → stay.hotel_id ≡ s.hotel_id
      → book orm intl stay hotel id dto now x ≡ err hotel_unavailable x
  unfolding book assert_available ◌>>=◌
  handle_daily_expiry_stops_booking k s single stored live late x loaded intl stay hotel id dto now
        own =
      rw unavailable refl
    where
      locked : (x.access stay.hotel_id).read_only ≡ true
      locked =
          ap (λ h. (x.access h).read_only) own
          ∙ ap (λ (a : AccessState). a.read_only) loaded
          ∙ handle_daily_expiry_locks k s single stored live late

      unavailable :
          (is_suspended (x.access stay.hotel_id).hotel_status || (x.access stay.hotel_id).read_only)
          ≡ true
      unavailable = ground (arith, locked)

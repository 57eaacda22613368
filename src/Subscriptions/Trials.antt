-- ===== src/Subscriptions/Trials.antt =====
-- The daily job: `emitTrialCountdowns` and `expireOverdueTrials` of
-- src/modules/subscriptions/subscriptions.service.ts in the order of
-- src/modules/subscriptions/trial-expiry.service.ts. `safeEmit` never throws, so an emission is recorded.
use hotello_backend.Common.{ℕ, ◌+◌, Option, none, some, List, [], ◌∷◌, ◌++◌, length}
use hotello_backend.Store.{TypeOrm}
use hotello_backend.Model.Subscriptions.{Subscription, TrialNotice, countdown}
use hotello_backend.Model.Effects.{number, number_or_null}
use hotello_backend.Exec.{
  Exec, pure, gets, from_option, modify, attempt, ◌>>=◌, ◌>>◌, internal_error,
}
use hotello_backend.Shared.{log}
use hotello_backend.Subscriptions.Rows.{
  days_until, expired, is_overdue, is_running, applicable_threshold,
}
use hotello_backend.Subscriptions.Service.{save_subscription}

module _ (orm : TypeOrm) where
  -- `safeEmit`
  unfoldable pub safe_emit : TrialNotice → Exec orm (Unit {0})
  safe_emit notice = modify (λ w. record w { trial_notices = w.trial_notices ++ notice ∷ [] })

  -- one trial of the loop; `continue` where no threshold applies
  unfoldable pub emit_countdown : ℕ → Subscription → ℕ → Option ℕ → ℕ → Exec orm ℕ
  emit_countdown ends sub days_remaining none emitted = pure emitted
  emit_countdown ends sub days_remaining (some threshold) emitted = do
    safe_emit (countdown sub.id sub.hotel_id threshold days_remaining ends)
    pure (emitted + 1)

  unfoldable pub emit_countdowns : ℕ → List Subscription → ℕ → Exec orm ℕ
  emit_countdowns now [] emitted = pure emitted
  emit_countdowns now (sub ∷ running) emitted = do
    ends ← from_option internal_error sub.trial_ends_at
    emitted' ←
        emit_countdown ends sub (days_until ends now) (applicable_threshold (days_until ends now))
          emitted
    emit_countdowns now running emitted'

  unfoldable pub emit_trial_countdowns : Exec orm ℕ
  emit_trial_countdowns = do
    now ← gets (λ w. w.now)
    running ← gets (λ w. orm.find (is_running now) w.subscriptions)
    emit_countdowns now running 0

  -- one trial of the loop
  unfoldable pub expire : Subscription → Exec orm (Unit {0})
  expire sub = do
    save_subscription orm (expired sub)
    log orm (record {
      action = "subscription.expired";
      entity_type = "subscription";
      entity_id = sub.id;
      actor_id = none;
      metadata =
          ("hotelId", number sub.hotel_id) ∷ ("trialEndsAt", number_or_null sub.trial_ends_at) ∷ [];
    })
    safe_emit (TrialNotice.expired sub.id sub.hotel_id sub.trial_ends_at)

  unfoldable pub expire_all : List Subscription → Exec orm (Unit {0})
  expire_all [] = pure tt
  expire_all (sub ∷ overdue) = do expire sub; expire_all overdue

  unfoldable pub expire_overdue_trials : Exec orm ℕ
  expire_overdue_trials = do
    now ← gets (λ w. w.now)
    overdue ← gets (λ w. orm.find (is_overdue now) w.subscriptions)
    expire_all overdue
    pure (length overdue)

  -- `handleDailyExpiry`: a failure of the reminders does not stop the expiry
  unfoldable pub handle_daily_expiry : Exec orm (Unit {0})
  handle_daily_expiry = do
    reminded ← attempt 0 emit_trial_countdowns
    count ← expire_overdue_trials
    pure tt

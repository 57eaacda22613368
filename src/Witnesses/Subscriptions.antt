-- ===== src/Witnesses/Subscriptions.antt =====
-- The theorems on subscriptions, applied to a hotel whose trial ended an instant ago.
use hotello_backend.Common.{
  ℕ, ◌≡◌, refl, false, true, none, some, [], ◌∷◌, ◌++◌, map, any, if◌then◌else◌,
}
use hotello_backend.Model.Subscriptions.{
  Subscription, SubscriptionStatus, Plan, PlanStatus, Admin, monthly,
}
use hotello_backend.Calendar.{days_of_parts, civil_of_days}
use hotello_backend.Exec.{World, ok, err, plan_not_found, hotel_unavailable, final, ◌>>=◌}
use hotello_backend.Events.Guests.{BookEventDto, book}
use hotello_backend.Subscriptions.Cycle.{HostZone, add_cycle}
use hotello_backend.Subscriptions.Rows.{is_overdue, expired, closed, has_trial, is_open}
use hotello_backend.Subscriptions.Service.{
  ChangeSubscriptionDto, change_plan, check_change, find_plan,
}
use hotello_backend.Subscriptions.Trials.{handle_daily_expiry}
use hotello_backend.Subscriptions.Access.{load_state}
use hotello_backend.Subscriptions.Changes.{view, IsCurrent}
use hotello_backend.Subscriptions.Handlers.Reminders.{reminders, running_rows}
use hotello_backend.Subscriptions.Handlers.Runs.{expiry_notice, overdue_rows}
use hotello_backend.Subscriptions.Single.{OneOpen, OneTrial, AtMostOne-save}
use hotello_backend.Subscriptions.History.{IsLater}
use hotello_backend.Subscriptions.Change.{MayChange, change_plan_grants}
use hotello_backend.Subscriptions.Refused.{change_plan_refused}
use hotello_backend.Subscriptions.Daily.{
  handle_daily_expiry_all, handle_daily_expiry_locks, handle_daily_expiry_stops_booking,
}
use hotello_backend.Subscriptions.Reach.{
  here, after, change_call, daily_call, perform, Reach-OneOpen, Reach-OneTrial, Reach-StoresLater,
}
use hotello_backend.Witnesses.Database.{database}
use hotello_backend.Witnesses.Samples.{frozen, the_hotel, the_stay, the_world}

-- a host on UTC
abbrev utc_host : HostZone
utc_host = record { local_time = λ t. t; utc = λ t. t }

abbrev the_plan : Plan
the_plan = record {
  id = 2;
  name_en = [];
  name_ar = [];
  yearly_price = none;
  max_rooms = some 50;
  max_staff_users = none;
  max_guest_requests_per_month = some 1000;
  enabled_modules = "events" ∷ [];
  status = PlanStatus.active;
  is_trial = false;
  trial_duration_days = none;
}

abbrev the_admin : Admin
the_admin = record { id = 1; permissions = some [] }

abbrev upgrade : ChangeSubscriptionDto
upgrade = record { plan_id = 2; billing_cycle = monthly; force = none }

-- the plan of the change does not exist
abbrev lost : ChangeSubscriptionDto
lost = record { plan_id = 9; billing_cycle = monthly; force = none }

abbrev the_trial : Subscription
the_trial = record {
  id = 4;
  hotel_id = 1;
  plan_id = 3;
  billing_cycle = monthly;
  status = SubscriptionStatus.trial;
  start_date = 10;
  end_date = none;
  next_renewal_at = none;
  trial_ends_at = some 99;
  changed_by_id = none;
}

abbrev on_trial : World database
on_trial = record the_world { plans = the_plan ∷ []; subscriptions = the_trial ∷ [] }

on_trial-OneOpen : OneOpen database (view database on_trial)
on_trial-OneOpen =
    AtMostOne-save database is_open [] the_trial (λ _ k r e. cc) (λ k k' r r' e e' p p' q. cc)

on_trial-OneTrial : OneTrial database (view database on_trial)
on_trial-OneTrial =
    AtMostOne-save database has_trial [] the_trial (λ _ k r e. cc) (λ k k' r r' e e' p p' q. cc)

on_trial-MayChange : MayChange database on_trial the_hotel the_plan upgrade the_admin
unfolding any
on_trial-MayChange = record {
  stored = refl;
  offered = refl;
  active = refl;
  billable = refl;
  entitled = refl;
  fitting = λ _. refl;
  first = λ _ p. cc;
}

-- the daily run, and then a change of plan
abbrev upgraded : World database
upgraded =
    perform database utc_host (change_call 1 upgrade the_admin)
      (perform database utc_host daily_call on_trial)

Reach-OneOpen_example : OneOpen database (view database upgraded)
Reach-OneOpen_example =
    Reach-OneOpen database utc_host false on_trial upgraded
      (after (change_call 1 upgrade the_admin) (λ e. cc) tt (after daily_call (λ e. cc) tt here))
      on_trial-OneOpen

Reach-OneTrial_example : OneTrial database (view database upgraded)
Reach-OneTrial_example =
    Reach-OneTrial database utc_host on_trial upgraded
      (after (change_call 1 upgrade the_admin) (λ e. cc) tt (after daily_call (λ e. cc) tt here))
      on_trial-OneTrial

Reach-StoresLater_example :
    (r : Subscription) × (database.get {key = λ (s : Subscription). s.id} upgraded.subscriptions 4
      ≡ some r)
    × IsLater the_trial r
Reach-StoresLater_example =
    Reach-StoresLater database utc_host false on_trial upgraded 4 the_trial
      (after (change_call 1 upgrade the_admin) (λ e. cc) tt (after daily_call (λ e. cc) tt here))
      refl

lost_refused : change_plan database utc_host 1 lost the_admin on_trial ≡ err plan_not_found on_trial
unfolding change_plan check_change find_plan ◌>>=◌
lost_refused = refl

change_plan_refused_example : on_trial ≡ on_trial
change_plan_refused_example =
    change_plan_refused database utc_host on_trial on_trial 1 lost the_admin plan_not_found
      lost_refused

change_plan_grants_example :
    (s : Subscription) × (v : World database) × (change_plan database utc_host 1 upgrade the_admin
        on_trial
      ≡ ok s v)
    × (database.get {key = λ (x : Subscription). x.id} v.subscriptions s.id ≡ some s)
    × (is_open s ≡ true)
    × IsCurrent database 1 v.subscriptions (some s)
    × (s.plan_id ≡ 2)
    × ((c : Subscription)
        → IsCurrent database 1 on_trial.subscriptions (some c)
        → database.get {key = λ (x : Subscription). x.id} v.subscriptions c.id
          ≡ some (closed 100 c))
    × ((load_state database 1 v).enabled_modules ≡ "events" ∷ [])
    × ((load_state database 1 v).read_only ≡ false)
    × ((load_state database 1 v).subscription_status ≡ some SubscriptionStatus.active)
change_plan_grants_example =
    change_plan_grants database utc_host on_trial the_hotel the_plan upgrade the_admin
      on_trial-MayChange on_trial-OneOpen

handle_daily_expiry_all_example :
    (v : World database) × (handle_daily_expiry database on_trial ≡ ok tt v)
    × ((k : ℕ) (r : Subscription)
        → database.get {key = λ (s : Subscription). s.id} on_trial.subscriptions k ≡ some r
        → database.get {key = λ (s : Subscription). s.id} v.subscriptions k
          ≡ some (if is_overdue 100 r then expired r else r))
    × (v.trial_notices
        ≡ ([] ++ reminders database 100 (running_rows database on_trial))
          ++ map expiry_notice (overdue_rows database on_trial))
handle_daily_expiry_all_example = handle_daily_expiry_all database on_trial

handle_daily_expiry_locks_example :
    (load_state database 1 (final (handle_daily_expiry database on_trial))).read_only ≡ true
handle_daily_expiry_locks_example =
    handle_daily_expiry_locks database on_trial 4 the_trial on_trial-OneOpen refl refl refl

-- a guest of the hotel after the run
abbrev locked : World database
locked = record on_trial {
  access = λ h. load_state database h (final (handle_daily_expiry database on_trial));
}

abbrev pair : BookEventDto
pair = record { party_size = 2; payment_method = none }

handle_daily_expiry_stops_booking_example :
    book database frozen the_stay the_hotel 3 pair 100 locked ≡ err hotel_unavailable locked
handle_daily_expiry_stops_booking_example =
    handle_daily_expiry_stops_booking database on_trial 4 the_trial on_trial-OneOpen refl refl refl
      locked refl frozen the_stay the_hotel 3 pair 100 refl

-- a month after 2026-01-31 at noon is 2026-03-03 at noon
end_of_january : add_cycle utc_host 1_769_860_800_000 monthly ≡ 1_772_539_200_000
unfolding add_cycle days_of_parts civil_of_days
end_of_january = refl

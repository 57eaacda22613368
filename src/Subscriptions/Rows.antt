-- ===== src/Subscriptions/Rows.antt =====
-- What src/modules/subscriptions/subscriptions.service.ts asks of a row, and the rows that it saves.
use text.Mathlib.Text.{◌==◌ as str_eq}
use hotello_backend.Common.{
  ℕ, ◌+◌, ◌-◌, ◌*◌, ◌/◌, Bool, true, false, not, ◌&&◌, Option, none, some, List, [], ◌∷◌, any,
  filter, ltb, leb, if◌then◌else◌,
}
use hotello_backend.Model.People.{Hotel}
use hotello_backend.Model.Subscriptions.{
  BillingCycle, Subscription, SubscriptionStatus, Plan, PlanStatus, Admin,
}
use hotello_backend.Shared.{is_null}
use hotello_backend.Subscriptions.Cycle.{HostZone, add_cycle, day_ms}

abbrev pub is_trial_status : SubscriptionStatus → Bool
is_trial_status SubscriptionStatus.trial = true
is_trial_status _ = false

abbrev pub is_active_plan : Plan → Bool
is_active_plan p = elim p.status [ PlanStatus.active ↦ true | PlanStatus.archived ↦ false ]

abbrev pub is_yearly : BillingCycle → Bool
is_yearly BillingCycle.yearly = true
is_yearly BillingCycle.monthly = false

-- `endDate: IsNull()`: the current subscription
abbrev pub is_open : Subscription → Bool
is_open s = is_null s.end_date

-- `trialEndsAt: Not(IsNull())`
abbrev pub has_trial : Subscription → Bool
has_trial s = not (is_null s.trial_ends_at)

-- `trialEndsAt: LessThan(now)`; a null column does not compare
abbrev pub ends_before : ℕ → Option ℕ → Bool
ends_before now none = false
ends_before now (some t) = ltb t now

-- `trialEndsAt: MoreThan(now)`
abbrev pub ends_after : ℕ → Option ℕ → Bool
ends_after now none = false
ends_after now (some t) = ltb now t

-- `actor.role?.permissions?.includes(WILDCARD) ?? false`
abbrev pub is_wildcard : Admin → Bool
is_wildcard actor = elim actor.permissions [
  | none ↦ false
  | some permissions ↦ any (λ p. str_eq p "*") permissions
]

-- `LIMIT_USAGE_FIELDS`, with the values of a plan and of a hotel: the limit and the usage
abbrev pub limit_usage : Hotel → Plan → List (Option ℕ × ℕ)
limit_usage hotel plan =
    (plan.max_rooms, hotel.rooms_count)
    ∷ (plan.max_staff_users, hotel.staff_users_count)
    ∷ (plan.max_guest_requests_per_month, hotel.monthly_guest_requests)
    ∷ []

-- `max !== null && hotel[usage] > max`
abbrev pub is_violated : Option ℕ × ℕ → Bool
is_violated (none, usage) = false
is_violated (some max, usage) = ltb max usage

-- `violations.length > 0`
abbrev pub exceeds : Hotel → Plan → Bool
exceeds hotel plan = any is_violated (limit_usage hotel plan)

-- `value ?? 0`
abbrev or_zero : Option ℕ → ℕ
or_zero none = 0
or_zero (some n) = n

-- `Math.ceil((date.getTime() - now.getTime()) / DAY_MS)`, and 0 where it is negative
abbrev pub days_until : ℕ → ℕ → ℕ
days_until date now = (date - now + 86_399_999) / day_ms

abbrev pub new_subscription : HostZone → ℕ → ℕ → ℕ → Plan → BillingCycle → Admin → Subscription
new_subscription host id now hotel_id plan cycle actor = record {
  id = id;
  hotel_id = hotel_id;
  plan_id = plan.id;
  billing_cycle = cycle;
  status = if plan.is_trial then SubscriptionStatus.trial else SubscriptionStatus.active;
  start_date = now;
  end_date = none;
  next_renewal_at = if plan.is_trial then none else some (add_cycle host now cycle);
  trial_ends_at =
      if plan.is_trial then some (now + or_zero plan.trial_duration_days * day_ms) else none;
  changed_by_id = some actor.id;
}

abbrev pub closed : ℕ → Subscription → Subscription
closed now s = record s { end_date = some now }

abbrev pub extended : ℕ → ℕ → Subscription → Subscription
extended ends additional_days s = record s {
  trial_ends_at = some (ends + additional_days * day_ms);
}

abbrev pub expired : Subscription → Subscription
expired s = record s { status = SubscriptionStatus.expired }

-- the trials that `expireOverdueTrials` selects
abbrev pub is_overdue : ℕ → Subscription → Bool
is_overdue now s = is_trial_status s.status && ends_before now s.trial_ends_at

-- the trials that `emitTrialCountdowns` selects
abbrev pub is_running : ℕ → Subscription → Bool
is_running now s = is_trial_status s.status && is_open s && ends_after now s.trial_ends_at

-- `TRIAL_THRESHOLDS`
abbrev trial_thresholds : List ℕ
trial_thresholds = 7 ∷ 3 ∷ 1 ∷ []

-- `Math.min(...applicable)`, none for an empty list
abbrev smallest : List ℕ → Option ℕ
smallest [] = none
smallest (t ∷ ts) = elim (smallest ts) [ none ↦ some t | some m ↦ some (if leb t m then t else m) ]

-- the smallest threshold that the days remaining do not exceed
unfoldable pub applicable_threshold : ℕ → Option ℕ
unfolding filter
applicable_threshold days = smallest (filter (λ t. leb days t) trial_thresholds)

-- ===== src/Subscriptions/Service.antt =====
-- src/modules/subscriptions/subscriptions.service.ts: what an admin does to the subscription of a hotel.
use hotello_backend.Common.{
  ℕ, Bool, false, not, ◌&&◌, ◌||◌, Option, none, some, [], ◌∷◌, ◌==◌, if◌then◌else◌,
}
use hotello_backend.Store.{TypeOrm}
use hotello_backend.Model.People.{Hotel}
use hotello_backend.Model.Subscriptions.{BillingCycle, monthly, yearly, Subscription, Plan, Admin}
use hotello_backend.Model.Effects.{Detail, number, flag, word, number_or_null}
use hotello_backend.Exec.{
  Exec, pure, from_option, gets, guard, when, modify, ◌>>=◌, ◌>>◌, hotel_not_found, plan_not_found,
  archived_plan_selected, yearly_unavailable, billing_cycle_required, force_limit_forbidden,
  plan_limit_violation, trial_already_used, super_admin_only_trial, no_running_trial,
}
use hotello_backend.Shared.{is_null, log}
use hotello_backend.Subscriptions.Cycle.{HostZone}
use hotello_backend.Subscriptions.Rows.{
  is_trial_status, is_active_plan, is_yearly, is_open, has_trial, is_wildcard, exceeds,
  new_subscription, closed, extended,
}

pub record ChangeSubscriptionDto : Type 0 where
  pub plan_id : ℕ
  pub billing_cycle : BillingCycle
  pub force : Option Bool

pub record InitialSubscriptionOpts : Type 0 where
  pub plan_id : ℕ
  pub billing_cycle : Option BillingCycle

-- `dto.force === true`
abbrev pub is_forced : ChangeSubscriptionDto → Bool
is_forced dto = elim dto.force [ none ↦ false | some b ↦ b ]

abbrev cycle_name : BillingCycle → Detail
cycle_name monthly = word "monthly"
cycle_name yearly = word "yearly"

-- `plan.isTrial ? 'monthly' : opts.billingCycle!`
abbrev pub initial_cycle : Plan → Option BillingCycle → BillingCycle
initial_cycle plan none = monthly
initial_cycle plan (some cycle) = if plan.is_trial then monthly else cycle

abbrev pub asks_yearly : Option BillingCycle → Bool
asks_yearly none = false
asks_yearly (some cycle) = is_yearly cycle

-- `!current || current.status !== 'trial' || !current.trialEndsAt`, with the end of the trial
abbrev pub running_trial : Option Subscription → Option (Subscription × ℕ)
running_trial none = none
running_trial (some s) = elim s.trial_ends_at [
  | none ↦ none
  | some ends ↦ if is_trial_status s.status then some (s, ends) else none
]

module _ (orm : TypeOrm) where
  unfoldable pub find_plan : ℕ → Exec orm Plan
  find_plan plan_id = do
    plan ← gets (λ w. orm.find_one (λ p. p.id == plan_id) w.plans)
    plan ← from_option plan_not_found plan
    guard (is_active_plan plan) archived_plan_selected
    pure plan

  -- the current subscription of a hotel
  unfoldable pub find_current : ℕ → Exec orm (Option Subscription)
  find_current hotel_id =
      gets (λ w. orm.find_one (λ s. s.hotel_id == hotel_id && is_open s) w.subscriptions)

  unfoldable pub assert_usage_within_limits : Hotel → Plan → Exec orm (Unit {0})
  assert_usage_within_limits hotel plan = guard (not (exceeds hotel plan)) plan_limit_violation

  unfoldable pub assert_trial_unused : ℕ → Bool → Exec orm (Unit {0})
  assert_trial_unused hotel_id force = when (not force) (do
    prior_trial ←
        gets (λ w. orm.find_one (λ s. s.hotel_id == hotel_id && has_trial s) w.subscriptions)
    guard (is_null prior_trial) trial_already_used)

  unfoldable pub save_subscription : Subscription → Exec orm (Unit {0})
  save_subscription s = modify (λ w. record w { subscriptions = orm.save s w.subscriptions })

  -- `if (current) { … }`
  unfoldable pub close_current : ℕ → Option Subscription → Exec orm (Unit {0})
  close_current now none = pure tt
  close_current now (some current) = save_subscription (closed now current)

  unfoldable pub insert_subscription : (ℕ → Subscription) → Exec orm Subscription
  insert_subscription create = do
    id ← gets (λ w. orm.generate_id w.subscriptions)
    save_subscription (create id)
    pure (create id)

  -- the conditions of a change, up to the first write
  unfoldable pub check_change : ℕ → ChangeSubscriptionDto → Admin → Exec orm Plan
  check_change hotel_id dto actor = do
    hotel ← gets (λ w. orm.find_one (λ h. h.id == hotel_id) w.hotels)
    hotel ← from_option hotel_not_found hotel
    plan ← find_plan dto.plan_id
    guard (not (is_yearly dto.billing_cycle && is_null plan.yearly_price)) yearly_unavailable
    guard (not (is_forced dto && not (is_wildcard actor))) force_limit_forbidden
    when (not (is_forced dto)) (assert_usage_within_limits hotel plan)
    when plan.is_trial (assert_trial_unused hotel_id (is_forced dto))
    pure plan

  unfoldable pub change_plan : HostZone → ℕ → ChangeSubscriptionDto → Admin → Exec orm Subscription
  change_plan host hotel_id dto actor = do
    plan ← check_change hotel_id dto actor
    current ← find_current hotel_id
    now ← gets (λ w. w.now)
    close_current now current
    subscription ←
        insert_subscription
          (λ id. new_subscription host id now hotel_id plan dto.billing_cycle actor)
    log orm (record {
      action = "subscription.changed";
      entity_type = "subscription";
      entity_id = subscription.id;
      actor_id = some actor.id;
      metadata =
          ("hotelId", number hotel_id)
          ∷ ("oldPlanId", number_or_null (elim current [ none ↦ none | some s ↦ some s.plan_id ]))
          ∷ ("newPlanId", number plan.id)
          ∷ ("billingCycle", cycle_name dto.billing_cycle)
          ∷ ("force", flag (is_forced dto))
          ∷ [];
    })
    pure subscription

  -- in the transaction that creates the hotel
  unfoldable pub create_initial_subscription :
      HostZone → Hotel → InitialSubscriptionOpts → Admin → Exec orm Subscription
  create_initial_subscription host hotel opts actor = do
    plan ← find_plan opts.plan_id
    guard (plan.is_trial || not (is_null opts.billing_cycle)) billing_cycle_required
    guard (not (asks_yearly opts.billing_cycle && is_null plan.yearly_price)) yearly_unavailable
    assert_usage_within_limits hotel plan
    now ← gets (λ w. w.now)
    insert_subscription (λ id.
        new_subscription host id now hotel.id plan (initial_cycle plan opts.billing_cycle) actor)

  unfoldable pub extend_trial : ℕ → ℕ → Admin → Exec orm Subscription
  extend_trial hotel_id additional_days actor = do
    guard (is_wildcard actor) super_admin_only_trial
    current ← find_current hotel_id
    trial ← from_option no_running_trial (running_trial current)
    save_subscription (extended trial.1 additional_days trial.0)
    log orm (record {
      action = "subscription.trial_extended";
      entity_type = "subscription";
      entity_id = trial.0.id;
      actor_id = some actor.id;
      metadata =
          ("hotelId", number hotel_id)
          ∷ ("additionalDays", number additional_days)
          ∷ ("oldTrialEndsAt", number trial.1)
          ∷ (
            "newTrialEndsAt",
            number_or_null (extended trial.1 additional_days trial.0).trial_ends_at,
          )
          ∷ [];
    })
    pure (extended trial.1 additional_days trial.0)

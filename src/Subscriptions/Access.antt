-- ===== src/Subscriptions/Access.antt =====
-- `loadState` of src/modules/tenant-access/tenant-access.service.ts: what a hotel may do, from its status
-- and its current subscription.
use hotello_backend.Common.{ℕ, Bool, true, false, ◌&&◌, Option, none, some, [], ◌==◌, if◌then◌else◌}
use hotello_backend.Store.{TypeOrm}
use hotello_backend.Model.People.{Hotel, HotelStatus, AccessState}
use hotello_backend.Model.Subscriptions.{Subscription, SubscriptionStatus, Plan}
use hotello_backend.Exec.{World}
use hotello_backend.Subscriptions.Rows.{is_open, is_trial_status, days_until}

-- `READ_ONLY_STATUSES`
abbrev pub is_read_only : SubscriptionStatus → Bool
is_read_only SubscriptionStatus.expired = true
is_read_only SubscriptionStatus.canceled = true
is_read_only _ = false

-- `value?.field ?? default`
abbrev maybe : {A B : Type 0} → B → (A → B) → Option A → B
maybe d f none = d
maybe d f (some a) = f a

-- the state that is answered for what the queries found
abbrev pub access_state : ℕ → Option Hotel → Option Subscription → Option Plan → AccessState
access_state now hotel subscription plan = record {
  hotel_status = maybe HotelStatus.inactive (λ h. h.status) hotel;
  subscription_status = maybe none (λ s. some s.status) subscription;
  trial_ends_at = maybe none (λ s. s.trial_ends_at) subscription;
  enabled_modules = maybe [] (λ p. p.enabled_modules) plan;
  plan_name_en = maybe none (λ p. some p.name_en) plan;
  plan_name_ar = maybe none (λ p. some p.name_ar) plan;
  trial_days_remaining =
      maybe none
        (λ s.
          if is_trial_status s.status
          then maybe none (λ ends. some (days_until ends now)) s.trial_ends_at
          else none)
        subscription;
  read_only = maybe false (λ s. is_read_only s.status) subscription;
}

module _ (orm : TypeOrm) where
  -- the `plan` relation of a subscription
  abbrev pub plan_of : World orm → Option Subscription → Option Plan
  plan_of w none = none
  plan_of w (some s) = orm.find_one (λ p. p.id == s.plan_id) w.plans

  unfoldable pub load_state : ℕ → World orm → AccessState
  load_state hotel_id w =
      let subscription = orm.find_one (λ s. s.hotel_id == hotel_id && is_open s) w.subscriptions in
      access_state w.now (orm.find_one (λ h. h.id == hotel_id) w.hotels) subscription
        (plan_of w subscription)

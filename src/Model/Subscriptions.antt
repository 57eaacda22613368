-- ===== src/Model/Subscriptions.antt =====
-- Plans, subscriptions and the admins that change them: src/modules/plans/plan.entity.ts,
-- src/modules/subscriptions/subscription.entity.ts, src/modules/admins/admin.entity.ts. The texts and
-- the prices that no modelled service reads are left out.
use hotello_backend.Common.{ℕ, String, Bool, Option, List, Text}

pub data BillingCycle : Type 0 where
  monthly yearly : BillingCycle

pub data SubscriptionStatus : Type 0 where
  active trial past_due canceled expired : SubscriptionStatus

pub record Subscription : Type 0 where
  pub id : ℕ
  pub hotel_id : ℕ
  pub plan_id : ℕ
  pub billing_cycle : BillingCycle
  pub status : SubscriptionStatus
  pub start_date : ℕ
  pub end_date : Option ℕ
  pub next_renewal_at : Option ℕ
  pub trial_ends_at : Option ℕ
  pub changed_by_id : Option ℕ

pub data PlanStatus : Type 0 where
  active archived : PlanStatus

pub record Plan : Type 0 where
  pub id : ℕ
  pub name_en : Text
  pub name_ar : Text
  pub yearly_price : Option ℕ
  pub max_rooms : Option ℕ
  pub max_staff_users : Option ℕ
  pub max_guest_requests_per_month : Option ℕ
  pub enabled_modules : List String
  pub status : PlanStatus
  pub is_trial : Bool
  pub trial_duration_days : Option ℕ

-- an admin with the permissions of its `role` relation, none where `role?.permissions` is undefined
pub record Admin : Type 0 where
  pub id : ℕ
  pub permissions : Option (List String)

-- the events that the notification listeners receive
pub data TrialNotice : Type 0 where
  -- `TrialCountdownEvent`: subscription, hotel, threshold, days remaining, end of the trial
  countdown : ℕ → ℕ → ℕ → ℕ → ℕ → TrialNotice
  -- `TrialExpiredEvent`: subscription, hotel, end of the trial
  expired : ℕ → ℕ → Option ℕ → TrialNotice

-- ===== src/Subscriptions/Changes.antt =====
-- The changes that src/modules/subscriptions makes to the table of subscriptions.
use hotello_backend.Common.{
  ℕ, ◌≡◌, ◌≢◌, ◌⊎◌, refl, inl, inr, Bool-cases, arith, Bool, true, false, ◌&&◌, Option, none, some,
  ◌==◌,
}
use hotello_backend.Store.{TypeOrm}
use hotello_backend.Model.Subscriptions.{
  Subscription, SubscriptionStatus, Plan, BillingCycle, Admin,
}
use hotello_backend.Shared.{is_null}
use hotello_backend.Subscriptions.Cycle.{HostZone}
use hotello_backend.Exec.{World}
use hotello_backend.Subscriptions.Rows.{
  is_open, has_trial, is_trial_status, is_overdue, new_subscription, closed, extended, expired,
}

-- what a call is about: a plan for a hotel, whether or not the limits are overridden, some days more for its
-- trial, or the trials that have run out at an instant
pub data Intent : Type 0 where
  to_assign : (hotel_id plan_id : ℕ) (forced : Bool) → Intent
  to_extend : (hotel_id days : ℕ) → Intent
  to_expire : (now : ℕ) → Intent

abbrev pub forced_by : Intent → Bool
forced_by (to_assign hotel_id plan_id forced) = forced
forced_by _ = false

-- a trial with its end, or an active subscription without one
abbrev pub StartsAs : SubscriptionStatus → Option ℕ → Type 0
StartsAs status trial_ends_at =
    ((status ≡ SubscriptionStatus.trial) × (is_null trial_ends_at ≡ false))
    ⊎ ((status ≡ SubscriptionStatus.active) × (trial_ends_at ≡ none))

pub new_subscription-StartsAs :
    (host : HostZone) (n now hotel_id : ℕ) (plan : Plan) (cycle : BillingCycle) (actor : Admin)
    → let s = new_subscription host n now hotel_id plan cycle actor in
      StartsAs s.status s.trial_ends_at
new_subscription-StartsAs host n now hotel_id plan cycle actor = elim (Bool-cases plan.is_trial) [
  | inl tried ↦ rw tried (inl (refl, refl))
  | inr paid ↦ rw paid (inr (refl, refl))
]

module _ (orm : TypeOrm) where
  abbrev pub SubTable : Type 0
  SubTable = orm.Table Subscription (λ s. s.id)

  abbrev pub view : World orm → SubTable
  view w = w.subscriptions

  -- no row of a hotel passes
  abbrev pub Free : (Subscription → Bool) → ℕ → SubTable → Type 0
  Free test hotel_id t =
      (k : ℕ) (r : Subscription) → orm.get t k ≡ some r → test r ≡ true → r.hotel_id ≢ hotel_id

  -- the open row that a query found is closed
  abbrev pub without_current : ℕ → Option Subscription → SubTable → SubTable
  without_current now none t = t
  without_current now (some s) t = orm.save (closed now s) t

  -- the query for the current subscription of a hotel
  abbrev pub IsCurrent : ℕ → SubTable → Option Subscription → Type 0
  IsCurrent hotel_id t current = orm.find_one (λ s. s.hotel_id == hotel_id && is_open s) t ≡ current

  pub data Change (intent : Intent) : SubTable → SubTable → Type 0 where
    replacing :
        (t : SubTable) (now : ℕ) (current : Option Subscription) (s : Subscription) (forced : Bool)
        → intent ≡ to_assign s.hotel_id s.plan_id forced
        → IsCurrent s.hotel_id t current
        → orm.get (without_current now current t) s.id ≡ none
        → is_open s ≡ true
        → StartsAs s.status s.trial_ends_at
        → (forced ≡ false → has_trial s ≡ true → Free has_trial s.hotel_id t)
        → Change intent t (orm.save s (without_current now current t))
    extending :
        (t : SubTable) (s : Subscription) (ends days : ℕ)
        → intent ≡ to_extend s.hotel_id days
        → orm.get t s.id ≡ some s
        → is_open s ≡ true
        → is_trial_status s.status ≡ true
        → s.trial_ends_at ≡ some ends
        → Change intent t (orm.save (extended ends days s) t)
    expiring :
        (t : SubTable) (now : ℕ) (s : Subscription)
        → intent ≡ to_expire now
        → orm.get t s.id ≡ some s
        → is_overdue now s ≡ true
        → Change intent t (orm.save (expired s) t)

  -- `J` survives every change
  abbrev pub IsKept : Intent → (SubTable → Type 0) → Type 0
  IsKept intent J = (t u : SubTable) → Change intent t u → J t → J u

  -- what the query for the current subscription says of the table
  pub current-stored :
      (hotel_id : ℕ) (t : SubTable) (s : Subscription)
      → IsCurrent hotel_id t (some s)
      → (orm.get t s.id ≡ some s) × (s.hotel_id ≡ hotel_id) × (is_open s ≡ true)
  current-stored hotel_id t s found =
      let (stored, passed) = orm.find_one-some _ t s found in (stored, ground arith, ground arith)

  pub current-none :
      (hotel_id : ℕ) (t : SubTable) → IsCurrent hotel_id t none → Free is_open hotel_id t
  current-none hotel_id t found k r stored is_current own =
      let missed = orm.find_one-none _ t k r found stored in ground arith

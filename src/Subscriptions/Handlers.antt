-- ===== src/Subscriptions/Handlers.antt =====
-- Every action of src/modules/subscriptions makes changes of `Subscriptions.Changes` only.
pub mod Checks
pub mod Reminders
pub mod Runs
use mathlib.Core.Path.{subst}
use hotello_backend.Common.{
  ℕ, ◌≡◌, ◌≢◌, refl, sym, ap, ◌∙◌, arith, inl, inr, Bool, Bool-cases, Option-cases, true, false,
  not, ◌&&◌, Option, none, some, ◌==◌, if◌then◌else◌,
}
use hotello_backend.Store.{TypeOrm}
use hotello_backend.Model.People.{Hotel}
use hotello_backend.Model.Subscriptions.{Subscription, Plan, Admin, BillingCycle}
use hotello_backend.Model.Effects.{AuditEntry}
use hotello_backend.Exec.{
  World, Outcome, ok, pure, gets, guard, when, modify, trial_already_used, ◌>>=◌, ◌>>◌,
}
use hotello_backend.Exec.Keeps.{
  Keeps, Any, Keeps-pure, Keeps-gets, Keeps-bind, Keeps-then, Keeps-from_option, Keeps-guard,
  Keeps-when, guard-Keeps, Keeps-weaken, when-given,
}
use hotello_backend.Exec.Safe.{
  Safe, Safe-then, Safe-bind, Safe-gets, Safe-pure, Safe-modify, Safe-pre, Keeps-Safe,
}
use hotello_backend.Exec.Frame.{
  On, Before, Handles, Handles-modify, Handles-read, Handles-Keeps, Keeps-elsewhere, Keeps-read,
}
use hotello_backend.Shared.{is_null, log}
use hotello_backend.Subscriptions.Cycle.{HostZone}
use hotello_backend.Subscriptions.Rows.{
  is_open, has_trial, is_wildcard, is_trial_status, new_subscription, closed, extended,
}
use hotello_backend.Subscriptions.Service.{
  ChangeSubscriptionDto, InitialSubscriptionOpts, is_forced, find_plan, find_current,
  assert_usage_within_limits, assert_trial_unused, save_subscription, close_current,
  insert_subscription, check_change, change_plan, initial_cycle, create_initial_subscription,
  running_trial, extend_trial,
}
use hotello_backend.Subscriptions.Changes.{
  Intent, to_assign, to_extend, StartsAs, new_subscription-StartsAs, SubTable, view, Free,
  without_current, IsCurrent, IsKept, replacing, extending, current-stored,
}
use hotello_backend.Subscriptions.Handlers.Checks.{
  log-Keeps, find_plan-Keeps, limits-Keeps, find_current-Keeps, MayTry, check_change-Keeps,
  tried-is_trial,
}

module _ (orm : TypeOrm) (intent : Intent) (J : SubTable orm → Type 0)
    (kept : IsKept orm intent J) where
  -- the current subscription gives way to a new one
  replaces :
      (t : SubTable orm) (now : ℕ) (current : Option Subscription) (create : ℕ → Subscription)
      (forced : Bool)
      → ((n : ℕ) → intent ≡ to_assign (create n).hotel_id (create n).plan_id forced)
      → J t
      → ((n : ℕ) → (create n).id ≡ n)
      → ((n : ℕ) → is_open (create n) ≡ true)
      → ((n : ℕ) → StartsAs (create n).status (create n).trial_ends_at)
      → ((n : ℕ) → IsCurrent orm (create n).hotel_id t current)
      → ((n : ℕ)
          → forced ≡ false
          → has_trial (create n) ≡ true
          → Free orm has_trial (create n).hotel_id t)
      → Safe
          (On (view orm) (λ x. x ≡ without_current orm now current t))
          (On (view orm) J)
          (λ _. On (view orm) J)
          (insert_subscription orm create)
  unfolding insert_subscription save_subscription
  replaces t now current create forced asked j own starts terms found may =
      Safe-bind
        {Q = λ n (w : World orm).
          (orm.get (without_current orm now current t) n ≡ none)
          × (view orm w ≡ without_current orm now current t)}
        _ _
        (Safe-gets _ (λ w h. (
          subst (λ (x : SubTable orm). orm.get x (orm.generate_id w.subscriptions) ≡ none) h
              (orm.get-generate_id w.subscriptions),
          h,
        )))
        λ n.
          Safe-then {Q = On (view orm) J} _ _
            (Safe-modify _ (λ w h.
              subst J (sym (ap (λ (x : SubTable orm). orm.save (create n) x) h.1)) (
                kept t _
                  (replacing t now current (create n) forced (asked n) (found n)
                    (ap (orm.get (without_current orm now current t)) (own n) ∙ h.0) (starts n)
                    (terms n) (may n))
                  j)))
            (Safe-pure _ (λ w h. h))

  -- the write of `close_current`
  closes :
      (t : SubTable orm) (now hotel_id : ℕ) (current : Option Subscription)
      → IsCurrent orm hotel_id t current
      → Safe
          (On (view orm) (Before J t))
          (On (view orm) J)
          (λ _. On (view orm) (λ x. (x ≡ without_current orm now current t) × J t))
          (close_current orm now current)
  unfolding close_current save_subscription
  closes t now hotel_id none found = Safe-pure _ (λ w h. h)
  closes t now hotel_id (some s) found =
      Safe-modify _ (λ w h. (ap (λ (x : SubTable orm). orm.save (closed now s) x) h.0, h.1))

  change_plan-Handles :
      (t : SubTable orm) (host : HostZone) (hotel_id : ℕ) (dto : ChangeSubscriptionDto)
      (actor : Admin)
      → intent ≡ to_assign hotel_id dto.plan_id (is_forced dto)
      → Handles (view orm) J (change_plan orm host hotel_id dto actor) t
  unfolding change_plan
  change_plan-Handles t host hotel_id dto actor same =
      Handles-read (view orm) J t
        (λ plan.
          (plan.id ≡ dto.plan_id)
          × (plan.is_trial ≡ true → MayTry orm J t hotel_id (is_forced dto)))
        _ _ (check_change-Keeps orm J t hotel_id dto actor)
        λ plan (chosen, may).
          Handles-read (view orm) J t (IsCurrent orm hotel_id t) _ _
            (find_current-Keeps orm J t hotel_id)
            λ current found. Handles-read (view orm) J t Any _ _ (Keeps-gets _ (λ w h. tt)) λ now _.
              Safe-then _ _ (closes t now hotel_id current found) (record {
                at = λ w h.
                    (Safe-bind _ _
                        (replaces t now current _ (is_forced dto)
                          (λ n. same ∙ ap (λ p. to_assign hotel_id p (is_forced dto)) (sym chosen))
                          h.1 (λ n. refl) (λ n. refl)
                          (λ n.
                            new_subscription-StartsAs host n now hotel_id plan dto.billing_cycle
                              actor)
                          (λ n. found)
                          (λ n f tried.
                            may
                              (tried-is_trial host n now hotel_id plan dto.billing_cycle actor
                                tried)
                              f))
                        (λ sub.
                          Keeps-Safe _ (Keeps-then _ _ (log-Keeps orm J _) (Keeps-pure _ tt)))).at
                      w h.0;
              })

  pub change_plan-Keeps :
      (host : HostZone) (hotel_id : ℕ) (dto : ChangeSubscriptionDto) (actor : Admin)
      → intent ≡ to_assign hotel_id dto.plan_id (is_forced dto)
      → Keeps (On (view orm) J) Any (change_plan orm host hotel_id dto actor)
  change_plan-Keeps host hotel_id dto actor same =
      Handles-Keeps (view orm) J _ λ t. change_plan-Handles t host hotel_id dto actor same

  -- a hotel without a subscription gets its first
  pub initial-Handles :
      (t : SubTable orm) (host : HostZone) (hotel : Hotel) (opts : InitialSubscriptionOpts)
      (actor : Admin)
      → intent ≡ to_assign hotel.id opts.plan_id false
      → Free orm (λ _. true) hotel.id t
      → Handles (view orm) J (create_initial_subscription orm host hotel opts actor) t
  unfolding create_initial_subscription
  initial-Handles t host hotel opts actor same free =
      Handles-read (view orm) J t (λ p. p.id ≡ opts.plan_id) _ _ (find_plan-Keeps orm _ _)
        λ plan chosen. Handles-read (view orm) J t Any _ _ (guard-Keeps _ _) λ _ _.
          Handles-read (view orm) J t Any _ _ (guard-Keeps _ _) λ _ _.
            Handles-read (view orm) J t Any _ _ (limits-Keeps orm _ _ _) λ _ _.
              Handles-read (view orm) J t Any _ _ (Keeps-gets _ (λ w h. tt)) λ now _. record {
                at = λ w h.
                    (replaces t now none _ false
                        (λ n. same ∙ ap (λ p. to_assign hotel.id p false) (sym chosen)) h.1
                        (λ n. refl) (λ n. refl)
                        (λ n.
                          new_subscription-StartsAs host n now hotel.id plan
                            (initial_cycle plan opts.billing_cycle) actor)
                        (λ n. none_current) (λ n f tried k r stored p. free k r stored refl)).at
                      w h.0;
              }
    where
      none_current : IsCurrent orm hotel.id t none
      none_current =
          elim (Option-cases (orm.find_one (λ s. s.hotel_id == hotel.id && is_open s) t)) [
            | inl e ↦ e
            | inr (s, e) ↦
                let (stored, own, _) = current-stored orm hotel.id t s e in
                absurd (free s.id s stored refl own)
          ]

  extend_trial-Handles :
      (t : SubTable orm) (hotel_id days : ℕ) (actor : Admin)
      → intent ≡ to_extend hotel_id days
      → Handles (view orm) J (extend_trial orm hotel_id days actor) t
  unfolding extend_trial save_subscription
  extend_trial-Handles t hotel_id days actor same =
      Handles-read (view orm) J t Any _ _ (guard-Keeps _ _) λ _ _.
        Handles-read (view orm) J t (IsCurrent orm hotel_id t) _ _
          (find_current-Keeps orm J t hotel_id)
          λ current found.
            Handles-read (view orm) J t
              (λ (x : Subscription × ℕ).
                (current ≡ some x.0)
                × (is_trial_status x.0.status ≡ true)
                × (x.0.trial_ends_at ≡ some x.1))
              _ _ (Keeps-from_option _ _ (runs current))
              λ x e.
                let (stored, own, starts) =
                  current-stored orm hotel_id t x.0 (subst (IsCurrent orm hotel_id t) e.0 found) in
                Safe-then _ _
                  (Handles-modify (view orm) J _ t (orm.save (extended x.1 days x.0) t)
                    (λ w h. ap (λ (y : SubTable orm). orm.save (extended x.1 days x.0) y) h)
                    (kept t _ (
                      extending t x.0 x.1 days (same ∙ ap (λ h. to_extend h days) (sym own)) stored
                        starts e.1 e.2)))
                  (Keeps-Safe _ (Keeps-then _ _ (log-Keeps orm J _) (Keeps-pure _ tt)))
    where
      runs :
          (current : Option Subscription) (x : Subscription × ℕ)
          → running_trial current ≡ some x
          → (current ≡ some x.0)
            × (is_trial_status x.0.status ≡ true)
            × (x.0.trial_ends_at ≡ some x.1)
      runs none x e = cc
      runs (some s) x e = elim (Option-cases s.trial_ends_at) [
        | inl p ↦ ground (arith, p)
        | inr (ends, p) ↦ ground (arith, p)
      ]

  pub extend_trial-Keeps :
      (hotel_id days : ℕ) (actor : Admin)
      → intent ≡ to_extend hotel_id days
      → Keeps (On (view orm) J) Any (extend_trial orm hotel_id days actor)
  extend_trial-Keeps hotel_id days actor same =
      Handles-Keeps (view orm) J _ λ t. extend_trial-Handles t hotel_id days actor same

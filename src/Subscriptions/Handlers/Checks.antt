-- ===== src/Subscriptions/Handlers/Checks.antt =====
-- The conditions of src/modules/subscriptions/subscriptions.service.ts only read, and what they establish.
use hotello_backend.Common.{
  ℕ, ◌≡◌, refl, sym, ap, arith, inl, inr, Bool, Bool-cases, true, false, ◌&&◌, Option, none, some,
  ◌==◌,
}
use hotello_backend.Store.{TypeOrm}
use hotello_backend.Model.People.{Hotel}
use hotello_backend.Model.Subscriptions.{Subscription, Plan, Admin, BillingCycle}
use hotello_backend.Model.Effects.{AuditEntry}
use hotello_backend.Exec.{World, gets, guard, when, trial_already_used, ◌>>=◌}
use hotello_backend.Exec.Keeps.{
  Keeps, Any, Keeps-pure, Keeps-gets, Keeps-bind, Keeps-then, Keeps-from_option, Keeps-guard,
  Keeps-when, guard-Keeps, Keeps-weaken, when-given,
}
use hotello_backend.Exec.Frame.{On, Before, Keeps-elsewhere}
use hotello_backend.Shared.{is_null, log}
use hotello_backend.Subscriptions.Cycle.{HostZone}
use hotello_backend.Subscriptions.Rows.{is_open, has_trial, new_subscription}
use hotello_backend.Subscriptions.Service.{
  ChangeSubscriptionDto, is_forced, find_plan, find_current, assert_usage_within_limits,
  assert_trial_unused, check_change,
}
use hotello_backend.Subscriptions.Changes.{SubTable, view, Free, IsCurrent}

module _ (orm : TypeOrm) (J : SubTable orm → Type 0) where
  pub log-Keeps : (e : AuditEntry) → Keeps (On (view orm) J) Any (log orm e)
  unfolding log
  log-Keeps e = Keeps-elsewhere (view orm) J _ (λ w. refl)

-- the conditions only read
module _ (orm : TypeOrm) (I : World orm → Type 0) where
  pub find_plan-Keeps : (id : ℕ) → Keeps I (λ plan. plan.id ≡ id) (find_plan orm id)
  unfolding find_plan
  find_plan-Keeps id =
      Keeps-bind {P = λ o. (p : Plan) → o ≡ some p → p.id ≡ id} _ _
        (Keeps-gets _
          (λ w h p e. let (_, passed) = orm.find_one-some _ w.plans p e in ground arith))
        λ o own.
          Keeps-bind {P = λ p. p.id ≡ id} _ _ (Keeps-from_option _ o own)
            λ plan same. Keeps-then _ _ (guard-Keeps _ _) (Keeps-pure _ same)

  pub limits-Keeps :
      (hotel : Hotel) (plan : Plan) → Keeps I Any (assert_usage_within_limits orm hotel plan)
  unfolding assert_usage_within_limits
  limits-Keeps hotel plan = guard-Keeps _ _

  -- what the check of the trial establishes is established by the conditions
  pub check_change-reads :
      (R : Type 0) (hotel_id : ℕ) (dto : ChangeSubscriptionDto) (actor : Admin)
      → Keeps I (λ _. R) (assert_trial_unused orm hotel_id (is_forced dto))
      → Keeps I
          (λ plan. (plan.id ≡ dto.plan_id) × (plan.is_trial ≡ true → R))
          (check_change orm hotel_id dto actor)
  unfolding check_change
  check_change-reads R hotel_id dto actor unused =
      Keeps-bind {P = Any} _ _ (Keeps-gets _ (λ w h. tt)) λ o _.
        Keeps-bind {P = Any} _ _ (Keeps-from_option _ o (λ a e. tt)) λ hotel _.
          Keeps-bind {P = λ p. p.id ≡ dto.plan_id} _ _ (find_plan-Keeps _) λ plan same.
            Keeps-then _ _ (guard-Keeps _ _) (
              Keeps-then _ _ (guard-Keeps _ _) (
                Keeps-then _ _ (Keeps-when _ _ (limits-Keeps _ _)) (
                  Keeps-bind {P = λ _. plan.is_trial ≡ true → R} _ _
                    (when-given plan.is_trial _ unused) λ _ p. Keeps-pure _ (same, p))))

module _ (orm : TypeOrm) (J : SubTable orm → Type 0) where
  pub find_current-Keeps :
      (t : SubTable orm) (hotel_id : ℕ)
      → Keeps (On (view orm) (Before J t)) (IsCurrent orm hotel_id t) (find_current orm hotel_id)
  unfolding find_current
  find_current-Keeps t hotel_id = Keeps-gets _ (λ w h.
      ap (λ (x : SubTable orm). orm.find_one (λ s. s.hotel_id == hotel_id && is_open s) x)
        (sym h.0))

  -- what the conditions of a trial promise
  abbrev pub MayTry : SubTable orm → ℕ → Bool → Type 0
  MayTry t hotel_id force = force ≡ false → Free orm has_trial hotel_id t

  assert_trial_unused-Keeps :
      (t : SubTable orm) (hotel_id : ℕ) (force : Bool)
      → Keeps
          (On (view orm) (Before J t))
          (λ _. MayTry t hotel_id force)
          (assert_trial_unused orm hotel_id force)
  unfolding assert_trial_unused when
  assert_trial_unused-Keeps t hotel_id true = record { at = λ w h. (h, λ e. cc) }
  assert_trial_unused-Keeps t hotel_id false = record { at = unused.at }
    where
      test : Subscription → Bool
      test s = s.hotel_id == hotel_id && has_trial s

      free :
          (o : Option Subscription)
          → orm.find_one test t ≡ o
          → is_null o ≡ true
          → Free orm has_trial hotel_id t
      free none found e k r stored tried own =
          let missed = orm.find_one-none _ t k r found stored in ground arith
      free (some s) found e k r stored tried own = cc

      unused :
          Keeps
            (On (view orm) (Before J t))
            (λ _. MayTry t hotel_id false)
            (do
              prior_trial ← gets (λ w. orm.find_one test w.subscriptions)
              guard (is_null prior_trial) trial_already_used)
      unused =
          Keeps-bind {P = λ o. orm.find_one test t ≡ o} _ _
            (Keeps-gets _ (λ w h. ap (orm.find_one test) (sym h.0)))
            λ o found. Keeps-weaken _ (Keeps-guard _ _) (λ _ e _. free o found e)

  pub check_change-Keeps :
      (t : SubTable orm) (hotel_id : ℕ) (dto : ChangeSubscriptionDto) (actor : Admin)
      → Keeps
          (On (view orm) (Before J t))
          (λ plan.
            (plan.id ≡ dto.plan_id) × (plan.is_trial ≡ true → MayTry t hotel_id (is_forced dto)))
          (check_change orm hotel_id dto actor)
  check_change-Keeps t hotel_id dto actor =
      check_change-reads orm _ _ hotel_id dto actor
        (assert_trial_unused-Keeps t hotel_id (is_forced dto))

-- only a trial plan gives a row with the end of a trial
pub tried-is_trial :
    (host : HostZone) (n now hotel_id : ℕ) (plan : Plan) (cycle : BillingCycle) (actor : Admin)
    → has_trial (new_subscription host n now hotel_id plan cycle actor) ≡ true
    → plan.is_trial ≡ true
tried-is_trial host n now hotel_id plan cycle actor e = elim (Bool-cases plan.is_trial) [
  | inl yes_trial ↦ yes_trial
  | inr no_trial ↦ let p : false ≡ true = rw no_trial at e in cc
]

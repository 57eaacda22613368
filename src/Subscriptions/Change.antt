-- ===== src/Subscriptions/Change.antt =====
-- What `changePlan` of src/modules/subscriptions/subscriptions.service.ts answers to an admin, and the
-- access that src/modules/tenant-access then gives the hotel.
use mathlib.Core.Path.{subst}
use hotello_backend.Common.{
  ◌≡◌, refl, sym, ap, ◌∙◌, arith, inl, inr, Bool, Bool-cases, Option-cases, true, false, not, ◌&&◌,
  Option, none, some, ◌==◌, ==_refl, if◌then◌else◌,
}
use hotello_backend.Store.{TypeOrm, find_one-get, get-save_self, get-save_ne}
use hotello_backend.Model.People.{Hotel}
use hotello_backend.Model.Subscriptions.{Subscription, SubscriptionStatus, Plan, Admin}
use hotello_backend.Exec.{World, ok, pure, gets, guard, when, ◌>>=◌}
use hotello_backend.Shared.{is_null, log}
use hotello_backend.Subscriptions.Cycle.{HostZone}
use hotello_backend.Subscriptions.Rows.{
  is_open, has_trial, is_wildcard, is_active_plan, is_yearly, exceeds, new_subscription, closed,
}
use hotello_backend.Subscriptions.Service.{
  ChangeSubscriptionDto, is_forced, find_plan, find_current, assert_usage_within_limits,
  assert_trial_unused, save_subscription, close_current, insert_subscription, check_change,
  change_plan,
}
use hotello_backend.Subscriptions.Access.{load_state, is_read_only}
use hotello_backend.Subscriptions.Changes.{
  to_assign, new_subscription-StartsAs, SubTable, Free, without_current, IsCurrent, replacing,
}
use hotello_backend.Subscriptions.Single.{OneOpen, OneOpen-IsKept, OneOpen-IsCurrent}

-- a new subscription does not make the hotel read-only
started_writable :
    (b : Bool)
    → is_read_only (if b then SubscriptionStatus.trial else SubscriptionStatus.active) ≡ false
started_writable true = refl
started_writable false = refl

module _ (orm : TypeOrm) where
  -- all that `changePlan` asks for
  pub record MayChange (w : World orm) (hotel : Hotel) (plan : Plan) (dto : ChangeSubscriptionDto)
      (actor : Admin) : Type 0 where
    pub stored : orm.get w.hotels hotel.id ≡ some hotel
    pub offered : orm.get w.plans dto.plan_id ≡ some plan
    pub active : is_active_plan plan ≡ true
    pub billable : (is_yearly dto.billing_cycle && is_null plan.yearly_price) ≡ false
    pub entitled : (is_forced dto && not (is_wildcard actor)) ≡ false
    pub fitting : is_forced dto ≡ false → exceeds hotel plan ≡ false
    pub first :
        is_forced dto ≡ false → plan.is_trial ≡ true → Free orm has_trial hotel.id w.subscriptions

  module _ (host : HostZone) (w : World orm) (hotel : Hotel) (plan : Plan)
      (dto : ChangeSubscriptionDto) (actor : Admin) (may : MayChange w hotel plan dto actor) where
    found_hotel : orm.find_one (λ h. h.id == hotel.id) w.hotels ≡ some hotel
    found_hotel =
        find_one-get orm _ w.hotels hotel.id hotel (λ x h. ground arith) may.stored
          (==_refl hotel.id)

    found_plan : orm.find_one (λ p. p.id == dto.plan_id) w.plans ≡ some plan
    found_plan =
        find_one-get orm _ w.plans dto.plan_id plan (λ x h. ground arith) may.offered
          (let own = orm.get-key w.plans dto.plan_id plan may.offered in ground arith)

    unused :
        is_forced dto ≡ false
        → plan.is_trial ≡ true
        → orm.find_one (λ s. s.hotel_id == hotel.id && has_trial s) w.subscriptions ≡ none
    unused f p =
        elim (Option-cases
          (orm.find_one (λ s. s.hotel_id == hotel.id && has_trial s) w.subscriptions)) [
            | inl e ↦ e
            | inr (s, e) ↦
                let (row, passed) = orm.find_one-some _ w.subscriptions s e in
                absurd (may.first f p s.id s row (ground arith) (ground arith))
          ]

    check_change_lem : check_change orm hotel.id dto actor w ≡ ok plan w
    unfolding check_change find_plan assert_usage_within_limits assert_trial_unused pure gets guard
        when ◌>>=◌
    check_change_lem = elim (Bool-cases (is_forced dto)) [
      | inl f ↦ elim (Bool-cases plan.is_trial) [
        | inl p ↦ rw (found_hotel, found_plan, may.active, may.billable, may.entitled, f, p) refl
        | inr p ↦ rw (found_hotel, found_plan, may.active, may.billable, may.entitled, f, p) refl
      ]
      | inr f ↦ elim (Bool-cases plan.is_trial) [
        | inl p ↦
            rw
              (
                found_hotel,
                found_plan,
                may.active,
                may.billable,
                may.entitled,
                may.fitting f,
                f,
                p,
                unused f p,
              )
              refl
        | inr p ↦
            rw
              (found_hotel, found_plan, may.active, may.billable, may.entitled, may.fitting f, f, p)
              refl
      ]
    ]

    abbrev current_of : Option Subscription
    current_of = orm.find_one (λ s. s.hotel_id == hotel.id && is_open s) w.subscriptions

    -- the table without the current subscription, and the new one
    abbrev between : SubTable orm
    between = without_current orm w.now current_of w.subscriptions

    abbrev created : Subscription
    created =
        new_subscription host (orm.generate_id between) w.now hotel.id plan dto.billing_cycle actor

    -- the run of a change
    IsRun : World orm → Type 0
    IsRun v =
        (change_plan orm host hotel.id dto actor w ≡ ok created v)
        × (v.subscriptions ≡ orm.save created between)
        × (v.now ≡ w.now)
        × (v.hotels ≡ w.hotels)
        × (v.plans ≡ w.plans)

    change_plan_runs : (v : World orm) × IsRun v
    unfolding change_plan find_current close_current insert_subscription save_subscription log IsRun
        pure ◌>>=◌
    change_plan_runs =
        elim (Option-cases
          (orm.find_one (λ s. s.hotel_id == hotel.id && is_open s) w.subscriptions)) [
            | inl e ↦ rw (check_change_lem, e) (_, (refl, refl, refl, refl, refl))
            | inr (c, e) ↦ rw (check_change_lem, e) (_, (refl, refl, refl, refl, refl))
          ]

    -- An admin who meets every condition of a plan change gets it, and the access follows: the call returns a
    -- stored open subscription to the plan, which is the hotel's current one in the state that is left;
    -- the subscription that was current is closed at the same instant, and in the state that is left the hotel has exactly the plan's modules, is not read-only
    -- and is on trial only with a trial plan. Of the hotel's subscriptions at most one was open before.
    pub change_plan_grants :
        OneOpen orm w.subscriptions
        → (s : Subscription) × (v : World orm) × (change_plan orm host hotel.id dto actor w
            ≡ ok s v)
          × (orm.get v.subscriptions s.id ≡ some s)
          × (is_open s ≡ true)
          × IsCurrent orm hotel.id v.subscriptions (some s)
          × (s.plan_id ≡ plan.id)
          × ((c : Subscription)
              → IsCurrent orm hotel.id w.subscriptions (some c)
              → orm.get v.subscriptions c.id ≡ some (closed w.now c))
          × ((load_state orm hotel.id v).enabled_modules ≡ plan.enabled_modules)
          × ((load_state orm hotel.id v).read_only ≡ false)
          × ((load_state orm hotel.id v).subscription_status
              ≡ some
                  (if plan.is_trial then SubscriptionStatus.trial else SubscriptionStatus.active))
    unfolding load_state IsRun
    change_plan_grants single =
        let (v, (run, table, now, hotels, plans)) = change_plan_runs in
        let fresh : orm.get between created.id ≡ none = orm.get-generate_id between in
        let one : OneOpen orm v.subscriptions = subst (OneOpen orm) (sym table) (
          OneOpen-IsKept orm (to_assign hotel.id plan.id true) w.subscriptions _
            (replacing w.subscriptions w.now current_of created true refl refl fresh refl
              (new_subscription-StartsAs host (orm.generate_id between) w.now hotel.id plan
                dto.billing_cycle actor)
              (λ e. cc))
            single) in
        let stored : orm.get v.subscriptions created.id ≡ some created =
          ap (λ (t : SubTable orm). orm.get t created.id) table
          ∙ get-save_self orm created between in
        let found : IsCurrent orm hotel.id v.subscriptions (some created) =
          OneOpen-IsCurrent orm v.subscriptions created.id created one stored refl in
        let offered : orm.find_one (λ p. p.id == plan.id) v.plans ≡ some plan =
          find_one-get orm _ v.plans plan.id plan (λ x h. ground arith)
            (ap (λ (t : orm.Table Plan (λ p. p.id)). orm.get t plan.id) plans
              ∙ ap (orm.get w.plans) (orm.get-key w.plans dto.plan_id plan may.offered)
              ∙ may.offered)
            (==_refl plan.id) in
        (
          created,
          v,
          run,
          stored,
          refl,
          found,
          refl,
          λ c current.
              let row : orm.get between c.id ≡ some (closed w.now c) =
                ap (λ o. orm.get (without_current orm w.now o w.subscriptions) c.id) current
                ∙ get-save_self orm (closed w.now c) w.subscriptions in
              ap (λ (t : SubTable orm). orm.get t c.id) table
              ∙ get-save_ne orm created between c.id (λ q. let hit = ap (orm.get between) q in cc)
              ∙ row,
          rw (found, offered) refl,
          rw found (started_writable plan.is_trial),
          rw found refl,
        )

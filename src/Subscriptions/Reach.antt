-- ===== src/Subscriptions/Reach.antt =====
-- The subscriptions as a transition system: every call of src/modules/subscriptions, in any order.
use mathlib.Core.Path.{subst}
use hotello_backend.Common.{ℕ, ◌≡◌, refl, sym, ◌∙◌, inl, inr, Bool, Bool-cases, true, false, some}
use hotello_backend.Store.{TypeOrm}
use hotello_backend.Model.People.{Hotel}
use hotello_backend.Model.Subscriptions.{Subscription, Admin}
use hotello_backend.Exec.{World, final}
use hotello_backend.Exec.Keeps.{Any, Keeps-final, Holds-final}
use hotello_backend.Exec.Safe.{Safe-Holds}
use hotello_backend.Subscriptions.Cycle.{HostZone}
use hotello_backend.Subscriptions.Service.{
  ChangeSubscriptionDto, InitialSubscriptionOpts, is_forced, change_plan,
  create_initial_subscription, extend_trial,
}
use hotello_backend.Subscriptions.Trials.{handle_daily_expiry}
use hotello_backend.Subscriptions.Changes.{
  Intent, to_assign, to_extend, to_expire, forced_by, SubTable, view, Free, IsKept,
}
use hotello_backend.Subscriptions.Handlers.{change_plan-Keeps, initial-Handles, extend_trial-Keeps}
use hotello_backend.Subscriptions.Handlers.Runs.{handle_daily_expiry_keeps}
use hotello_backend.Subscriptions.Single.{OneOpen, OneTrial, OneOpen-IsKept, OneTrial-IsKept}
use hotello_backend.Subscriptions.History.{IsLater, IsLater-refl, StoresLater, StoresLater-IsKept}

-- a call, with its body
pub data SubscriptionCall : Type 0 where
  change_call : ℕ → ChangeSubscriptionDto → Admin → SubscriptionCall
  -- the onboarding of a new hotel
  initial_call : Hotel → InitialSubscriptionOpts → Admin → SubscriptionCall
  extend_call : ℕ → ℕ → Admin → SubscriptionCall
  daily_call : SubscriptionCall

-- whether a call overrides the limits
abbrev pub forces : SubscriptionCall → Bool
forces (change_call hotel_id dto actor) = is_forced dto
forces _ = false

-- what a call at an instant is about
abbrev pub intent_of : SubscriptionCall → ℕ → Intent
intent_of (change_call hotel_id dto actor) now = to_assign hotel_id dto.plan_id (is_forced dto)
intent_of (initial_call hotel opts actor) now = to_assign hotel.id opts.plan_id false
intent_of (extend_call hotel_id days actor) now = to_extend hotel_id days
intent_of daily_call now = to_expire now

intent_of-forced : (c : SubscriptionCall) (now : ℕ) → forced_by (intent_of c now) ≡ forces c
intent_of-forced (change_call hotel_id dto actor) now = refl
intent_of-forced (initial_call hotel opts actor) now = refl
intent_of-forced (extend_call hotel_id days actor) now = refl
intent_of-forced daily_call now = refl

module _ (orm : TypeOrm) (host : HostZone) where
  -- the state that a call leaves
  unfoldable pub perform : SubscriptionCall → World orm → World orm
  perform (change_call hotel_id dto actor) w = final (change_plan orm host hotel_id dto actor w)
  perform (initial_call hotel opts actor) w =
      final (create_initial_subscription orm host hotel opts actor w)
  perform (extend_call hotel_id days actor) w = final (extend_trial orm hotel_id days actor w)
  perform daily_call w = final (handle_daily_expiry orm w)

  -- the id of a hotel that is being created is new
  abbrev pub Allowed : SubscriptionCall → World orm → Type 0
  Allowed (initial_call hotel opts actor) w = Free orm (λ _. true) hotel.id w.subscriptions
  Allowed _ w = Unit

  pub perform_keeps :
      (J : SubTable orm → Type 0) (c : SubscriptionCall) (w : World orm)
      → IsKept orm (intent_of c w.now) J
      → Allowed c w
      → J (view orm w)
      → J (view orm (perform c w))
  unfolding perform
  perform_keeps J (change_call hotel_id dto actor) w kept _ h =
      Keeps-final (change_plan-Keeps orm _ J kept host hotel_id dto actor refl) w h
  perform_keeps J (initial_call hotel opts actor) w kept free h = Holds-final J' Any _ (
      Safe-Holds _ (initial-Handles orm _ J kept (view orm w) host hotel opts actor refl free) w
        (refl, h))
    where
      J' : World orm → Type 0
      J' v = J (view orm v)
  perform_keeps J (extend_call hotel_id days actor) w kept _ h =
      Keeps-final (extend_trial-Keeps orm _ J kept hotel_id days actor refl) w h
  perform_keeps J daily_call w kept _ h = handle_daily_expiry_keeps orm w J kept h

  -- the states after some calls, with changes to the other tables in between; a call that overrides the
  -- limits only where `forced` lets it
  pub data Reach (forced : Bool) : World orm → World orm → Type 0 where
    here : {w : World orm} → Reach forced w w
    after :
        {w v : World orm} (c : SubscriptionCall)
        → (forces c ≡ true → forced ≡ true)
        → Allowed c v
        → Reach forced w v
        → Reach forced w (perform c v)
    elsewhere : {w v u : World orm} → Reach forced w v → view orm u ≡ view orm v → Reach forced w u

  pub reach_keeps :
      (forced : Bool) (J : SubTable orm → Type 0)
      → ((i : Intent) → (forced_by i ≡ true → forced ≡ true) → IsKept orm i J)
      → {w v : World orm} → Reach forced w v
      → J (view orm w)
      → J (view orm v)
  reach_keeps forced J kept here h = h
  reach_keeps forced J kept (after {v} c may allowed r) h =
      perform_keeps J c v (kept (intent_of c v.now) (λ e. may (sym (intent_of-forced c v.now) ∙ e)))
        allowed (reach_keeps forced J kept r h)
  reach_keeps forced J kept (elsewhere r e) h = subst J (sym e) (reach_keeps forced J kept r h)

  -- From a table with at most one open subscription for each hotel, no order of plan changes, onboardings of
  -- hotels that have no subscription yet, trial extensions and daily runs, refused or not, gives a hotel
  -- a second one.
  pub Reach-OneOpen :
      (forced : Bool) (w v : World orm)
      → Reach forced w v
      → OneOpen orm (view orm w)
      → OneOpen orm (view orm v)
  Reach-OneOpen forced w v r h = reach_keeps forced (OneOpen orm) (λ b _. OneOpen-IsKept orm b) r h

  -- From a table with at most one trial for each hotel, and while no call overrides the limits, a hotel never
  -- has a second trial: at most one of all its subscriptions, open or closed, has the end of a trial.
  pub Reach-OneTrial :
      (w v : World orm) → Reach false w v → OneTrial orm (view orm w) → OneTrial orm (view orm v)
  Reach-OneTrial w v r h = reach_keeps false (OneTrial orm) unforced r h
    where
      unforced : (i : Intent) → (forced_by i ≡ true → false ≡ true) → IsKept orm i (OneTrial orm)
      unforced i e = elim (Bool-cases (forced_by i)) [
        | inl f ↦ let p = e f in cc
        | inr f ↦ OneTrial-IsKept orm i f
      ]

  -- Whatever is called, forced or not, a stored subscription stays stored and its history is kept: its
  -- hotel, plan, cycle, start, renewal date and author never change, its status changes at most from
  -- trial to expired, the end of its trial is never brought forward, and once it is closed neither its
  -- end nor the end of its trial changes.
  pub Reach-StoresLater :
      (forced : Bool) (w v : World orm) (k : ℕ) (s : Subscription)
      → Reach forced w v
      → orm.get w.subscriptions k ≡ some s
      → (r : Subscription) × (orm.get v.subscriptions k ≡ some r) × IsLater s r
  Reach-StoresLater forced w v k s r stored =
      reach_keeps forced (StoresLater orm k s) (λ b _. StoresLater-IsKept orm k s b) r
        (s, stored, IsLater-refl s)

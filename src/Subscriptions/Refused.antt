-- ===== src/Subscriptions/Refused.antt =====
-- A refused `changePlan` of src/modules/subscriptions/subscriptions.service.ts.
use mathlib.Core.Path.{subst}
use hotello_backend.Common.{ℕ, ◌≡◌, refl, Bool, true, false, ◌&&◌, Option, none, some, ◌==◌}
use hotello_backend.Store.{TypeOrm}
use hotello_backend.Model.Subscriptions.{Subscription, Admin}
use hotello_backend.Exec.{World, ErrorCode, err, gets, guard, when, trial_already_used, ◌>>=◌}
use hotello_backend.Exec.Keeps.{Keeps, Any, Keeps-gets, Keeps-bind, guard-Keeps}
use hotello_backend.Exec.Safe.{
  Safe, Safe-then, Safe-bind, Safe-gets, Safe-pure, Safe-modify, Keeps-before, Leaves,
}
use hotello_backend.Shared.{is_null, log}
use hotello_backend.Subscriptions.Cycle.{HostZone}
use hotello_backend.Subscriptions.Rows.{has_trial}
use hotello_backend.Subscriptions.Service.{
  ChangeSubscriptionDto, is_forced, find_current, assert_trial_unused, save_subscription,
  close_current, insert_subscription, change_plan,
}
use hotello_backend.Subscriptions.Handlers.Checks.{check_change-reads}

module _ (orm : TypeOrm) where
  assert_trial_unused-reads :
      (I : World orm → Type 0) (hotel_id : ℕ) (force : Bool)
      → Keeps I (λ _. Unit) (assert_trial_unused orm hotel_id force)
  unfolding assert_trial_unused when
  assert_trial_unused-reads I hotel_id true = record { at = λ w h. (h, tt) }
  assert_trial_unused-reads I hotel_id false = record { at = reads.at }
    where
      reads : Keeps I Any (do
        prior_trial ←
            gets (λ w. orm.find_one (λ s. s.hotel_id == hotel_id && has_trial s) w.subscriptions)
        guard (is_null prior_trial) trial_already_used)
      reads = Keeps-bind {P = Any} _ _ (Keeps-gets _ (λ w h. tt)) λ o _. guard-Keeps _ _

  close_current-Safe :
      (E : World orm → Type 0) (now : ℕ) (current : Option Subscription)
      → Safe Any E (λ _. Any) (close_current orm now current)
  unfolding close_current save_subscription
  close_current-Safe E now none = Safe-pure _ (λ w h. tt)
  close_current-Safe E now (some s) = Safe-modify _ (λ w h. tt)

  refuses :
      (host : HostZone) (w : World orm) (hotel_id : ℕ) (dto : ChangeSubscriptionDto) (actor : Admin)
      → Safe (λ v. v ≡ w) (λ v. v ≡ w) (λ _. Any) (change_plan orm host hotel_id dto actor)
  unfolding change_plan find_current insert_subscription save_subscription log
  refuses host w hotel_id dto actor =
      Keeps-before _ _ (λ v e. e)
        (check_change-reads orm _ _ hotel_id dto actor
          (assert_trial_unused-reads _ hotel_id (is_forced dto)))
        λ plan _. Safe-bind {Q = λ _. Any} _ _ (Safe-gets _ (λ v e. tt)) λ current.
          Safe-bind {Q = λ _. Any} _ _ (Safe-gets _ (λ v e. tt)) λ now.
            Safe-then {Q = Any} _ _ (close_current-Safe _ now current) (
              Safe-bind {Q = λ _. Any} _ _
                (Safe-bind {Q = λ _. Any} _ _ (Safe-gets _ (λ v e. tt)) λ n.
                  Safe-then {Q = Any} _ _ (Safe-modify _ (λ v e. tt)) (Safe-pure _ (λ v e. tt)))
                λ s. Safe-then {Q = Any} _ _ (Safe-modify _ (λ v e. tt)) (Safe-pure _ (λ v e. tt)))

  -- A plan change that is refused, for whatever reason, changes nothing at all.
  pub change_plan_refused :
      (host : HostZone) (w v : World orm) (hotel_id : ℕ) (dto : ChangeSubscriptionDto)
      (actor : Admin) (code : ErrorCode)
      → change_plan orm host hotel_id dto actor w ≡ err code v
      → v ≡ w
  change_plan_refused host w v hotel_id dto actor code e =
      subst (Leaves (λ x. x ≡ w) (λ _. Any)) e ((refuses host w hotel_id dto actor).at w refl)

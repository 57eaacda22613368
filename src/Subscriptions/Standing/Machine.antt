-- ===== src/Subscriptions/Standing/Machine.antt =====
-- One plan for each hotel: the abstract view of src/modules/subscriptions, and the steps that a call may make
-- on it.
use hotello_backend.Common.{
  ℕ, ◌+◌, ◌*◌, ◌<◌, ◌≡◌, ◌≢◌, refl, sym, ap, ◌∙◌, arith, inl, inr, Bool, true, false, not, Option,
  none, some,
}
use hotello_backend.Model.Subscriptions.{Subscription, SubscriptionStatus}
use hotello_backend.Subscriptions.Rows.{is_trial_status, ends_before}
use hotello_backend.Subscriptions.Changes.{Intent, to_assign, to_extend, to_expire, StartsAs}
use hotello_backend.Subscriptions.History.{Later}
use hotello_backend.Shared.{is_null}

-- the plan that a hotel is on
pub record Standing : Type 0 where
  pub plan_id : ℕ
  pub status : SubscriptionStatus
  pub trial_ends_at : Option ℕ

-- the plan of every hotel, and whether it ever had a trial
pub record Standings : Type 0 where
  pub standing : ℕ → Option Standing
  pub had_trial : ℕ → Bool

abbrev pub SameElsewhere : ℕ → Standings → Standings → Type 0
SameElsewhere h f g = (x : ℕ) → x ≢ h → g.standing x ≡ f.standing x

-- what a call about `intent` may do to the plans
pub data Step (intent : Intent) (f g : Standings) : Type 0 where
  idle :
      (now : ℕ) → intent ≡ to_expire now → ((x : ℕ) → g.standing x ≡ f.standing x) → Step intent f g
  assigned :
      (h plan_id : ℕ) (forced : Bool) (p : Standing)
      → intent ≡ to_assign h plan_id forced
      → p.plan_id ≡ plan_id
      → StartsAs p.status p.trial_ends_at
      → (forced ≡ false → p.status ≡ SubscriptionStatus.trial → f.had_trial h ≡ false)
      → (p.status ≡ SubscriptionStatus.trial → g.had_trial h ≡ true)
      → g.standing h ≡ some p
      → SameElsewhere h f g
      → Step intent f g
  prolonged :
      (h days : ℕ) (p : Standing) (ends : ℕ)
      → intent ≡ to_extend h days
      → f.standing h ≡ some p
      → p.status ≡ SubscriptionStatus.trial
      → p.trial_ends_at ≡ some ends
      → g.standing h ≡ some (record p { trial_ends_at = some (ends + days * 86_400_000) })
      → SameElsewhere h f g
      → Step intent f g
  ran_out :
      (h now : ℕ) (p : Standing) (ends : ℕ)
      → intent ≡ to_expire now
      → f.standing h ≡ some p
      → p.status ≡ SubscriptionStatus.trial
      → p.trial_ends_at ≡ some ends
      → ends < now
      → g.standing h ≡ some (record p { status = SubscriptionStatus.expired })
      → SameElsewhere h f g
      → Step intent f g

-- a trial is never forgotten
abbrev pub Remembers : Standings → Standings → Type 0
Remembers f g = (x : ℕ) → f.had_trial x ≡ true → g.had_trial x ≡ true

pub data Steps (intent : Intent) (f : Standings) : Standings → Type 0 where
  start : Steps intent f f
  and_then :
      {g h : Standings} → Steps intent f g → Step intent g h → Remembers g h → Steps intent f h

abbrev pub standing_of : Option Subscription → Option Standing
standing_of none = none
standing_of (some s) =
    some (record { plan_id = s.plan_id; status = s.status; trial_ends_at = s.trial_ends_at })

pub StartsAs-tried :
    (status : SubscriptionStatus) (ends : Option ℕ)
    → StartsAs status ends
    → status ≡ SubscriptionStatus.trial
    → not (is_null ends) ≡ true
StartsAs-tried status ends starts p = elim starts [
  | inl (_, e) ↦ ap not e
  | inr (e, _) ↦ let q : SubscriptionStatus.active ≡ SubscriptionStatus.trial = sym e ∙ p in cc
]

pub has_trial-Later : (a b : Option ℕ) → Later a b → not (is_null a) ≡ true → not (is_null b) ≡ true
has_trial-Later none b h e = cc
has_trial-Later (some a) none h e = absurd h
has_trial-Later (some a) (some b) h e = refl

pub overdue-ends :
    (now : ℕ) (o : Option ℕ)
    → ends_before now o ≡ true
    → (ends : ℕ) × (o ≡ some ends) × (ends < now)
overdue-ends now none h = cc
overdue-ends now (some ends) h = (ends, refl, ground arith)

pub trial_only : (s : SubscriptionStatus) → is_trial_status s ≡ true → s ≡ SubscriptionStatus.trial
trial_only SubscriptionStatus.trial h = refl
trial_only _ h = cc

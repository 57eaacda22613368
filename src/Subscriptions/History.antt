-- ===== src/Subscriptions/History.antt =====
-- The history of a subscription: what the later row of a subscription keeps of an earlier one.
use native.Mathlib.Decide.{ℕ_discrete}
use mathlib.Core.Path.{subst}
use hotello_backend.Common.{
  ℕ, ◌+◌, ◌*◌, ◌≤◌, ◌≡◌, refl, sym, ap, ◌∙◌, arith, Bool, true, false, Option, none, some,
}
use hotello_backend.Store.{TypeOrm, get-save_self, get-save_ne}
use hotello_backend.Model.Subscriptions.{Subscription, SubscriptionStatus}
use hotello_backend.Shared.{is_null}
use hotello_backend.Subscriptions.Rows.{is_open, is_trial_status, closed, extended, expired}
use hotello_backend.Subscriptions.Changes.{
  Intent, SubTable, without_current, IsCurrent, IsKept, replacing, extending, expiring,
  current-stored,
}

-- the subscription with the columns that may still change of another
abbrev pub with_progress : Subscription → Subscription → Subscription
with_progress s r = record r {
  status = s.status;
  end_date = s.end_date;
  trial_ends_at = s.trial_ends_at;
}

-- a status stays, or a trial has expired
abbrev pub may_become : SubscriptionStatus → SubscriptionStatus → Bool
may_become SubscriptionStatus.active SubscriptionStatus.active = true
may_become SubscriptionStatus.active _ = false
may_become SubscriptionStatus.trial SubscriptionStatus.trial = true
may_become SubscriptionStatus.trial SubscriptionStatus.expired = true
may_become SubscriptionStatus.trial _ = false
may_become SubscriptionStatus.past_due SubscriptionStatus.past_due = true
may_become SubscriptionStatus.past_due _ = false
may_become SubscriptionStatus.canceled SubscriptionStatus.canceled = true
may_become SubscriptionStatus.canceled _ = false
may_become SubscriptionStatus.expired SubscriptionStatus.expired = true
may_become SubscriptionStatus.expired _ = false

-- the end of a trial is never brought forward
abbrev pub Later : Option ℕ → Option ℕ → Type 0
Later none none = Unit
Later none (some b) = ⊥
Later (some a) none = ⊥
Later (some a) (some b) = a ≤ b

pub record IsLater (s r : Subscription) : Type 0 where
  pub terms : with_progress s r ≡ s
  pub follows : may_become s.status r.status ≡ true
  pub later : Later s.trial_ends_at r.trial_ends_at
  pub over : is_open s ≡ false → (r.end_date ≡ s.end_date) × (r.trial_ends_at ≡ s.trial_ends_at)

Later-refl : (o : Option ℕ) → Later o o
Later-refl none = tt
Later-refl (some a) = omega arith

Later-trans : (a b c : Option ℕ) → Later a b → Later b c → Later a c
Later-trans none none none h k = tt
Later-trans none none (some z) h k = k
Later-trans none (some y) c h k = absurd h
Later-trans (some x) none c h k = absurd h
Later-trans (some x) (some y) none h k = k
Later-trans (some x) (some y) (some z) h k = omega arith

become_refl : (s : SubscriptionStatus) → may_become s s ≡ true
become_refl SubscriptionStatus.active = refl
become_refl SubscriptionStatus.trial = refl
become_refl SubscriptionStatus.past_due = refl
become_refl SubscriptionStatus.canceled = refl
become_refl SubscriptionStatus.expired = refl

become_trans :
    (a b c : SubscriptionStatus)
    → may_become a b ≡ true
    → may_become b c ≡ true
    → may_become a c ≡ true
become_trans a b c h k = ground arith

pub IsLater-refl : (s : Subscription) → IsLater s s
IsLater-refl s = record {
  terms = refl;
  follows = become_refl s.status;
  later = Later-refl s.trial_ends_at;
  over = λ _. (refl, refl);
}

IsLater-trans : (s r q : Subscription) → IsLater s r → IsLater r q → IsLater s q
IsLater-trans s r q a b = record {
  terms = ap (with_progress s) b.terms ∙ a.terms;
  follows = become_trans s.status r.status q.status a.follows b.follows;
  later = Later-trans s.trial_ends_at r.trial_ends_at q.trial_ends_at a.later b.later;
  over = λ e.
      let (ended, tried) = a.over e in
      let (ended', tried') = b.over (ap (λ o. is_null o) ended ∙ e) in
      (ended' ∙ ended, tried' ∙ tried);
}

closed-IsLater : (s : Subscription) (now : ℕ) → is_open s ≡ true → IsLater s (closed now s)
closed-IsLater s now live = record {
  terms = refl;
  follows = become_refl s.status;
  later = Later-refl s.trial_ends_at;
  over = λ e. absurd (ground arith);
}

extended-IsLater :
    (s : Subscription) (ends days : ℕ)
    → is_open s ≡ true
    → s.trial_ends_at ≡ some ends
    → IsLater s (extended ends days s)
extended-IsLater s ends days live tried = record {
  terms = refl;
  follows = become_refl s.status;
  later = subst (λ o. Later o (some (ends + days * 86_400_000))) (sym tried) (omega arith);
  over = λ e. absurd (ground arith);
}

expired-IsLater : (s : Subscription) → is_trial_status s.status ≡ true → IsLater s (expired s)
expired-IsLater s tried = record {
  terms = refl;
  follows = ground arith;
  later = Later-refl s.trial_ends_at;
  over = λ _. (refl, refl);
}

module _ (orm : TypeOrm) (k : ℕ) (s : Subscription) where
  abbrev pub StoresLater : SubTable orm → Type 0
  StoresLater t = (r : Subscription) × (orm.get t k ≡ some r) × IsLater s r

  replaced :
      (t : SubTable orm) (old next : Subscription)
      → orm.get t old.id ≡ some old
      → next.id ≡ old.id
      → IsLater old next
      → StoresLater t
      → StoresLater (orm.save next t)
  replaced t old next stored same later (r, row, h) = elim (ℕ_discrete next.id k) [
    | no other ↦ (r, get-save_ne orm next t k other ∙ row, h)
    | yes hit ↦
        let both : some old ≡ some r = sym stored ∙ ap (orm.get t) (sym same ∙ hit) ∙ row in
        let p : old ≡ r = cc in
        (
          next,
          ap (orm.get (orm.save next t)) (sym hit) ∙ get-save_self orm next t,
          IsLater-trans s r next h (subst (λ x. IsLater x next) p later),
        )
  ]

  without_current-StoresLater :
      (t : SubTable orm) (now hotel_id : ℕ) (current : Option Subscription)
      → IsCurrent orm hotel_id t current
      → StoresLater t
      → StoresLater (without_current orm now current t)
  without_current-StoresLater t now hotel_id none found h = h
  without_current-StoresLater t now hotel_id (some c) found h =
      let (stored, _, live) = current-stored orm hotel_id t c found in
      replaced t c (closed now c) stored refl (closed-IsLater c now live) h

  pub StoresLater-IsKept : (intent : Intent) → IsKept orm intent StoresLater
  StoresLater-IsKept intent t u (replacing _ now current n forced asked found fresh live starts may)
        h =
      let (r, row, later) = without_current-StoresLater t now n.hotel_id current found h in
      let before = without_current orm now current t in
      (r, get-save_ne orm n before k (λ q. let hit = ap (orm.get before) q in cc) ∙ row, later)
  StoresLater-IsKept intent t u (extending _ c ends days asked stored live trial_status tried) h =
      replaced t c (extended ends days c) stored refl (extended-IsLater c ends days live tried) h
  StoresLater-IsKept intent t u (expiring _ now c asked stored late) h =
      replaced t c (expired c) stored refl (expired-IsLater c (ground arith)) h

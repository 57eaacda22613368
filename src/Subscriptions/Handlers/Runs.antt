-- ===== src/Subscriptions/Handlers/Runs.antt =====
-- The loops of src/modules/subscriptions/subscriptions.service.ts in closed form: what a run of the daily
-- job leaves, and that it makes changes of `Subscriptions.Changes` only.
use mathlib.Core.Path.{subst}
use mathlib.Core.List.{append-nil, append_assoc}
use hotello_backend.Common.{
  ℕ, ◌≡◌, refl, sym, ap, ◌∙◌, arith, inl, inr, Bool-cases, true, none, some, List, [], ◌∷◌, ◌++◌,
  length, map, ◌==◌, if◌then◌else◌,
}
use hotello_backend.Store.{TypeOrm, Distinct, Covered, Covered-save, get-save_self, get-save_ne}
use hotello_backend.Store.Listed.{Listed, Listed-save}
use hotello_backend.Model.Subscriptions.{Subscription, TrialNotice}
use hotello_backend.Model.Effects.{AuditEntry, number, number_or_null}
use hotello_backend.Exec.{World, Outcome, ok, pure, gets, modify, attempt, ◌>>=◌, final}
use hotello_backend.Shared.{log}
use hotello_backend.Subscriptions.Rows.{is_overdue, expired}
use hotello_backend.Subscriptions.Service.{save_subscription}
use hotello_backend.Subscriptions.Trials.{
  safe_emit, expire, expire_all, expire_overdue_trials, handle_daily_expiry,
}
use hotello_backend.Subscriptions.Changes.{to_expire, SubTable, view, IsKept, expiring}
use hotello_backend.Subscriptions.Handlers.Reminders.{reminded, emit_trial_countdowns_run}

-- the notice of an expired trial
abbrev pub expiry_notice : Subscription → TrialNotice
expiry_notice s = TrialNotice.expired s.id s.hotel_id s.trial_ends_at

abbrev pub expiry_entry : Subscription → AuditEntry
expiry_entry s = record {
  action = "subscription.expired";
  entity_type = "subscription";
  entity_id = s.id;
  actor_id = none;
  metadata = ("hotelId", number s.hotel_id) ∷ ("trialEndsAt", number_or_null s.trial_ends_at) ∷ [];
}

module _ (orm : TypeOrm) where
  -- the table after the loop
  abbrev pub with_expired : List Subscription → SubTable orm → SubTable orm
  with_expired [] t = t
  with_expired (s ∷ rows) t = with_expired rows (orm.save (expired s) t)

  -- the state after the loop
  abbrev pub after_expiry : List Subscription → World orm → World orm
  after_expiry [] w = w
  after_expiry (s ∷ rows) w = after_expiry rows (record w {
    subscriptions = orm.save (expired s) w.subscriptions;
    audit_logs = w.audit_logs ++ expiry_entry s ∷ [];
    trial_notices = w.trial_notices ++ expiry_notice s ∷ [];
  })

  expire_all_lem :
      (rows : List Subscription) (w : World orm)
      → expire_all orm rows w ≡ ok tt (after_expiry rows w)
  unfolding expire_all expire save_subscription log safe_emit pure modify ◌>>=◌
  expire_all_lem [] w = refl
  expire_all_lem (s ∷ rows) w = expire_all_lem rows _

  pub expire_overdue_trials_run :
      (w : World orm)
      → expire_overdue_trials orm w ≡ (
          let rows = orm.find (is_overdue w.now) w.subscriptions in
          ok (length rows) (after_expiry rows w))
  unfolding expire_overdue_trials pure gets ◌>>=◌
  expire_overdue_trials_run w =
      rw (expire_all_lem (orm.find (is_overdue w.now) w.subscriptions) w) refl

  pub after_expiry_table :
      (rows : List Subscription) (w : World orm)
      → (after_expiry rows w).subscriptions ≡ with_expired rows w.subscriptions
  after_expiry_table [] w = refl
  after_expiry_table (s ∷ rows) w = after_expiry_table rows _

  pub after_expiry_access :
      (rows : List Subscription) (w : World orm)
      → ((after_expiry rows w).access ≡ w.access) × ((after_expiry rows w).now ≡ w.now)
  after_expiry_access [] w = (refl, refl)
  after_expiry_access (s ∷ rows) w = after_expiry_access rows _

  pub after_expiry_notices :
      (rows : List Subscription) (w : World orm)
      → (after_expiry rows w).trial_notices ≡ w.trial_notices ++ map expiry_notice rows
  after_expiry_notices [] w = sym (append-nil w.trial_notices)
  after_expiry_notices (s ∷ rows) w =
      after_expiry_notices rows _
      ∙ append_assoc w.trial_notices (expiry_notice s ∷ []) (map expiry_notice rows)

  pub with_expired_keeps :
      (J : SubTable orm → Type 0) (now : ℕ) (rows : List Subscription) (t : SubTable orm)
      → IsKept orm (to_expire now) J
      → Distinct (λ (s : Subscription). s.id) rows
      → Listed orm (is_overdue now) rows t
      → J t
      → J (with_expired rows t)
  with_expired_keeps J now [] t kept d h j = j
  with_expired_keeps J now (s ∷ rows) t kept (apart, d) ((stored, passed), rest) j =
      with_expired_keeps J now rows (orm.save (expired s) t) kept d
        (Listed-save orm (is_overdue now) t (expired s) rows apart rest)
        (kept t _ (expiring t now s refl stored passed) j)

  -- what the run makes of a row
  abbrev pub if_overdue : ℕ → Subscription → Subscription
  if_overdue now r = if is_overdue now r then expired r else r

  pub with_expired_row :
      (now : ℕ) (rows : List Subscription) (t : SubTable orm) (k : ℕ) (r : Subscription)
      → Distinct (λ (s : Subscription). s.id) rows
      → Listed orm (is_overdue now) rows t
      → Covered orm (is_overdue now) t rows
      → orm.get t k ≡ some r
      → orm.get (with_expired rows t) k ≡ some (if_overdue now r)
  with_expired_row now [] t k r d h covered stored = elim (Bool-cases (is_overdue now r)) [
    | inl late ↦ elim (covered k r stored late) [ ]
    | inr early ↦ rw early stored
  ]
  with_expired_row now (s ∷ rows) t k r (apart, d) ((here, passed), rest) covered stored =
      let go = λ (x : Subscription) (e : orm.get (orm.save (expired s) t) k ≡ some x).
        with_expired_row now rows (orm.save (expired s) t) k x d
          (Listed-save orm (is_overdue now) t (expired s) rows apart rest)
          (Covered-save orm (is_overdue now) t s (expired s) rows refl refl covered) e in
      elim (Bool-cases (s.id == k)) [
        | inl hit ↦
            let own : s.id ≡ k = ground arith in
            let both : some s ≡ some r = sym here ∙ ap (orm.get t) own ∙ stored in
            let p : s ≡ r = cc in
            let late : is_overdue now r ≡ true = subst (λ x. is_overdue now x ≡ true) p passed in
            go (expired s)
              (ap (orm.get (orm.save (expired s) t)) (sym own) ∙ get-save_self orm (expired s) t)
            ∙ ap (λ x. some (expired x)) p
            ∙ sym (rw late refl)
        | inr other ↦ go r (get-save_ne orm (expired s) t k (λ q. absurd (ground arith)) ∙ stored)
      ]

module _ (orm : TypeOrm) (w : World orm) where
  abbrev pub overdue_rows : List Subscription
  overdue_rows = orm.find (is_overdue w.now) w.subscriptions

module _ (orm : TypeOrm) (w : World orm) where
  -- the daily run: the reminders, and then the expiry
  pub handle_daily_expiry_run :
      handle_daily_expiry orm w ≡ ok tt (after_expiry orm (overdue_rows orm w) (reminded orm w))
  unfolding handle_daily_expiry attempt pure ◌>>=◌
  handle_daily_expiry_run =
      rw (emit_trial_countdowns_run orm w, expire_overdue_trials_run orm (reminded orm w)) refl

  pub handle_daily_expiry_table :
      (final (handle_daily_expiry orm w)).subscriptions
      ≡ with_expired orm (overdue_rows orm w) w.subscriptions
  handle_daily_expiry_table =
      ap (λ (o : Outcome (World orm) (Unit {0})). view orm (final o)) handle_daily_expiry_run
      ∙ after_expiry_table orm (overdue_rows orm w) (reminded orm w)

  pub handle_daily_expiry_row :
      (k : ℕ) (r : Subscription)
      → orm.get w.subscriptions k ≡ some r
      → orm.get (final (handle_daily_expiry orm w)).subscriptions k ≡ some (if_overdue orm w.now r)
  handle_daily_expiry_row k r stored =
      ap (λ (t : SubTable orm). orm.get t k) handle_daily_expiry_table
      ∙ with_expired_row orm w.now (overdue_rows orm w) w.subscriptions k r
          (orm.find-distinct _ w.subscriptions) (orm.find-sound _ w.subscriptions)
          (λ k r stored late. orm.find-complete _ w.subscriptions k r stored late) stored

  pub handle_daily_expiry_keeps :
      (J : SubTable orm → Type 0)
      → IsKept orm (to_expire w.now) J
      → J (view orm w)
      → J (view orm (final (handle_daily_expiry orm w)))
  handle_daily_expiry_keeps J kept j = subst J (sym handle_daily_expiry_table) (
      with_expired_keeps orm J w.now (overdue_rows orm w) w.subscriptions kept
        (orm.find-distinct _ w.subscriptions) (orm.find-sound _ w.subscriptions) j)

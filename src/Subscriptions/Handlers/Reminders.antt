-- ===== src/Subscriptions/Handlers/Reminders.antt =====
-- `emitTrialCountdowns` of src/modules/subscriptions/subscriptions.service.ts in closed form.
use mathlib.Core.List.{append-nil, append_assoc}
use hotello_backend.Common.{
  ℕ, ◌+◌, ◌≡◌, refl, sym, ap, ◌∙◌, arith, inl, inr, Bool-cases, Option-cases, none, some, List, [],
  ◌∷◌, ◌++◌, length, filter, leb, if◌then◌else◌,
}
use hotello_backend.Store.{TypeOrm}
use hotello_backend.Store.Listed.{Listed}
use hotello_backend.Model.Subscriptions.{Subscription, TrialNotice, countdown}
use hotello_backend.Exec.{World, Outcome, ok, pure, gets, modify, from_option, ◌>>=◌}
use hotello_backend.Subscriptions.Rows.{is_running, days_until, applicable_threshold}
use hotello_backend.Subscriptions.Trials.{
  safe_emit, emit_countdown, emit_countdowns, emit_trial_countdowns,
}

module _ (orm : TypeOrm) where
  -- the days left of a running trial, at least one
  abbrev pub notice_tier : ℕ → ℕ
  notice_tier days = if leb days 1 then 1 else if leb days 3 then 3 else 7

  threshold_lem :
      (days : ℕ)
      → applicable_threshold days ≡ (if leb days 7 then some (notice_tier days) else none)
  unfolding applicable_threshold filter
  threshold_lem days = ground arith

  -- the reminders of a run
  abbrev pub reminders : ℕ → List Subscription → List TrialNotice
  reminders now [] = []
  reminders now (s ∷ rows) = elim s.trial_ends_at [
    | none ↦ reminders now rows
    | some ends ↦
        if leb (days_until ends now) 7
        then countdown s.id s.hotel_id (notice_tier (days_until ends now)) (days_until ends now)
            ends
          ∷ reminders now rows
        else reminders now rows
  ]

  sends :
      (w : World orm) (n m : ℕ) (l k : List TrialNotice)
      → n ≡ m
      → l ≡ k
      → ◌≡◌ {A = Outcome (World orm) ℕ}
          (ok n (record w { trial_notices = l }))
          (ok m (record w { trial_notices = k }))
  sends w n m l k p q =
      ap (λ x. ok x (record w { trial_notices = l })) p
      ∙ ap (λ x. ok m (record w { trial_notices = x })) q

  emit_countdowns_lem :
      (now : ℕ) (rows : List Subscription) (emitted : ℕ) (w : World orm)
      → Listed orm (is_running now) rows w.subscriptions
      → emit_countdowns orm now rows emitted w
        ≡ ok
            (emitted + length (reminders now rows))
            (record w { trial_notices = w.trial_notices ++ reminders now rows })
  unfolding emit_countdowns emit_countdown safe_emit from_option pure modify ◌>>=◌
  emit_countdowns_lem now [] emitted w h =
      sends w emitted (emitted + 0) w.trial_notices (w.trial_notices ++ []) (omega arith)
        (sym (append-nil w.trial_notices))
  emit_countdowns_lem now (s ∷ rows) emitted w ((stored, passed), rest) =
      elim (Option-cases s.trial_ends_at) [
        | inl e ↦ absurd (ground (arith, e, passed))
        | inr (ends, e) ↦ elim (Bool-cases (leb (days_until ends now) 7)) [
          | inl near ↦
              let notice =
                countdown s.id s.hotel_id (notice_tier (days_until ends now)) (days_until ends now)
                  ends in
              rw (e, threshold_lem (days_until ends now), near)
                (emit_countdowns_lem now rows (emitted + 1)
                    (record w { trial_notices = w.trial_notices ++ notice ∷ [] }) rest
                  ∙ sends w _ _ _ _ (omega arith)
                      (append_assoc w.trial_notices (notice ∷ []) (reminders now rows)))
          | inr far ↦
              rw (e, threshold_lem (days_until ends now), far)
                (emit_countdowns_lem now rows emitted w rest)
        ]
      ]

module _ (orm : TypeOrm) (w : World orm) where
  abbrev pub running_rows : List Subscription
  running_rows = orm.find (is_running w.now) w.subscriptions

  -- the state after the reminders
  abbrev pub reminded : World orm
  reminded = record w { trial_notices = w.trial_notices ++ reminders orm w.now running_rows }

  pub emit_trial_countdowns_run :
      emit_trial_countdowns orm w ≡ ok (length (reminders orm w.now running_rows)) reminded
  unfolding emit_trial_countdowns gets ◌>>=◌
  emit_trial_countdowns_run =
      emit_countdowns_lem orm w.now running_rows 0 w (orm.find-sound _ w.subscriptions)
      ∙ sends orm w _ _ _ _ (omega arith) refl

-- ===== src/Subscriptions/Single.antt =====
-- One current subscription and one trial for each hotel.
use native.Mathlib.Decide.{ℕ_discrete}
use mathlib.Core.Path.{subst}
use hotello_backend.Common.{
  ℕ, ◌≡◌, ◌≢◌, refl, sym, ap, ◌∙◌, arith, Bool, true, false, Option, none, some, Option-cases, inl,
  inr, ==_refl, ◌&&◌, ◌==◌,
}
use hotello_backend.Store.{TypeOrm, get-save_self, get-save_ne}
use hotello_backend.Model.Subscriptions.{Subscription}
use hotello_backend.Subscriptions.Rows.{is_open, has_trial, closed, extended, expired}
use hotello_backend.Subscriptions.Changes.{
  Intent, forced_by, SubTable, Free, without_current, IsCurrent, IsKept, replacing, extending,
  expiring, current-stored, current-none,
}

module _ (orm : TypeOrm) (test : Subscription → Bool) where
  -- two rows of one hotel that pass are the same row
  abbrev pub AtMostOne : SubTable orm → Type 0
  AtMostOne t =
      (k k' : ℕ) (r r' : Subscription)
      → orm.get t k ≡ some r
      → orm.get t k' ≡ some r'
      → test r ≡ true
      → test r' ≡ true
      → r.hotel_id ≡ r'.hotel_id
      → k ≡ k'

  -- every row of `u` that passes was a row of the same hotel that passed
  abbrev pub Shrinks : SubTable orm → SubTable orm → Type 0
  Shrinks t u =
      (k : ℕ) (r : Subscription)
      → orm.get u k ≡ some r
      → test r ≡ true
      → (r' : Subscription) × (orm.get t k ≡ some r')
        × (test r' ≡ true)
        × (r'.hotel_id ≡ r.hotel_id)

  pub Shrinks-refl : (t : SubTable orm) → Shrinks t t
  Shrinks-refl t k r stored passed = (r, stored, passed, refl)

  pub Shrinks-save :
      (t : SubTable orm) (old next : Subscription)
      → orm.get t old.id ≡ some old
      → next.id ≡ old.id
      → next.hotel_id ≡ old.hotel_id
      → (test next ≡ true → test old ≡ true)
      → Shrinks t (orm.save next t)
  Shrinks-save t old next stored same hotel back k r row passed = elim (ℕ_discrete next.id k) [
    | yes hit ↦
        let both : some next ≡ some r =
          sym (get-save_self orm next t) ∙ ap (orm.get (orm.save next t)) hit ∙ row in
        let p : next ≡ r = cc in
        (
          old,
          ap (orm.get t) (sym hit ∙ same) ∙ stored,
          back (subst (λ x. test x ≡ true) (sym p) passed),
          sym hotel ∙ ap (λ x. x.hotel_id) p,
        )
    | no other ↦ (r, sym (get-save_ne orm next t k other) ∙ row, passed, refl)
  ]

  pub AtMostOne-Shrinks : (t u : SubTable orm) → Shrinks t u → AtMostOne t → AtMostOne u
  AtMostOne-Shrinks t u back h k k' r r' stored stored' p p' same =
      let (s, row, q, own) = back k r stored p in
      let (s', row', q', own') = back k' r' stored' p' in
      h k k' s s' row row' q q' (own ∙ same ∙ sym own')

  pub Free-Shrinks :
      (t u : SubTable orm) (hotel_id : ℕ)
      → Shrinks t u
      → Free orm test hotel_id t
      → Free orm test hotel_id u
  Free-Shrinks t u hotel_id back free k r stored passed own =
      let (s, row, q, same) = back k r stored passed in free k s row q (same ∙ own)

  pub AtMostOne-save :
      (t : SubTable orm) (s : Subscription)
      → (test s ≡ true → Free orm test s.hotel_id t)
      → AtMostOne t
      → AtMostOne (orm.save s t)
  AtMostOne-save t s free h k k' r r' stored stored' p p' same = elim (ℕ_discrete s.id k) [
    | yes hit ↦ elim (ℕ_discrete s.id k') [
      | yes hit' ↦ sym hit ∙ hit'
      | no other' ↦ absurd (apart k k' r r' hit other' stored stored' p p' same)
    ]
    | no other ↦ elim (ℕ_discrete s.id k') [
      | yes hit' ↦ absurd (apart k' k r' r hit' other stored' stored p' p (sym same))
      | no other' ↦
          h k k' r r' (sym (get-save_ne orm s t k other) ∙ stored)
            (sym (get-save_ne orm s t k' other') ∙ stored') p p' same
    ]
  ]
    where
      apart :
          (k k' : ℕ) (r r' : Subscription)
          → s.id ≡ k
          → s.id ≢ k'
          → orm.get (orm.save s t) k ≡ some r
          → orm.get (orm.save s t) k' ≡ some r'
          → test r ≡ true
          → test r' ≡ true
          → r.hotel_id ≡ r'.hotel_id
          → ⊥
      apart k k' r r' hit other stored stored' p p' same =
          let both : some s ≡ some r =
            sym (get-save_self orm s t) ∙ ap (orm.get (orm.save s t)) hit ∙ stored in
          let q : s ≡ r = cc in
          free (subst (λ x. test x ≡ true) (sym q) p) k' r'
            (sym (get-save_ne orm s t k' other) ∙ stored') p'
            (sym same ∙ ap (λ x. x.hotel_id) (sym q))

module _ (orm : TypeOrm) where
  -- closing the current subscription leaves none open
  without_current-Free :
      (t : SubTable orm) (now hotel_id : ℕ) (current : Option Subscription)
      → IsCurrent orm hotel_id t current
      → AtMostOne orm is_open t
      → Free orm is_open hotel_id (without_current orm now current t)
  without_current-Free t now hotel_id none found h k r stored starts own =
      current-none orm hotel_id t found k r stored starts own
  without_current-Free t now hotel_id (some s) found h k r stored starts own =
      let (here, mine, live) = current-stored orm hotel_id t s found in
      elim (ℕ_discrete s.id k) [
        | yes hit ↦
            let both : some (closed now s) ≡ some r =
              sym (get-save_self orm (closed now s) t)
              ∙ ap (orm.get (orm.save (closed now s) t)) hit
              ∙ stored in
            let p : closed now s ≡ r = cc in let q : false ≡ true = ap is_open p ∙ starts in cc
        | no other ↦ other (
            h s.id k s r here (sym (get-save_ne orm (closed now s) t k other) ∙ stored) live starts
              (mine ∙ sym own))
      ]

  pub without_current-Shrinks :
      (test : Subscription → Bool) (t : SubTable orm) (now hotel_id : ℕ)
      (current : Option Subscription)
      → IsCurrent orm hotel_id t current
      → ((s : Subscription) → test (closed now s) ≡ true → test s ≡ true)
      → Shrinks orm test t (without_current orm now current t)
  without_current-Shrinks test t now hotel_id none found back = Shrinks-refl orm test t
  without_current-Shrinks test t now hotel_id (some s) found back =
      Shrinks-save orm test t s (closed now s) (current-stored orm hotel_id t s found).0 refl refl
        (back s)

  abbrev pub OneOpen : SubTable orm → Type 0
  OneOpen = AtMostOne orm is_open

  abbrev pub OneTrial : SubTable orm → Type 0
  OneTrial = AtMostOne orm has_trial

  pub OneOpen-IsKept : (intent : Intent) → IsKept orm intent OneOpen
  OneOpen-IsKept intent t u (replacing _ now current s forced asked found fresh live starts may) h =
      AtMostOne-save orm is_open (without_current orm now current t) s
        (λ _. without_current-Free t now s.hotel_id current found h)
        (AtMostOne-Shrinks orm is_open t _
          (without_current-Shrinks is_open t now s.hotel_id current found (λ x e. cc)) h)
  OneOpen-IsKept intent t u (extending _ s ends days asked stored live trial_status tried) h =
      AtMostOne-Shrinks orm is_open t _
        (Shrinks-save orm is_open t s (extended ends days s) stored refl refl (λ e. e)) h
  OneOpen-IsKept intent t u (expiring _ now s asked stored late) h =
      AtMostOne-Shrinks orm is_open t _
        (Shrinks-save orm is_open t s (expired s) stored refl refl (λ e. e)) h

  pub OneTrial-IsKept : (intent : Intent) → forced_by intent ≡ false → IsKept orm intent OneTrial
  OneTrial-IsKept intent unforced t u
        (replacing _ now current s forced asked found fresh live starts may) h =
      let shrinks = without_current-Shrinks has_trial t now s.hotel_id current found (λ x e. e) in
      AtMostOne-save orm has_trial (without_current orm now current t) s
        (λ tried.
          Free-Shrinks orm has_trial t _ s.hotel_id shrinks
            (may (sym (ap forced_by asked) ∙ unforced) tried))
        (AtMostOne-Shrinks orm has_trial t _ shrinks h)
  OneTrial-IsKept intent unforced t u (extending _ s ends days asked stored live trial_status tried)
        h =
      AtMostOne-Shrinks orm has_trial t _
        (Shrinks-save orm has_trial t s (extended ends days s) stored refl refl
          (λ e. ground (arith, tried)))
        h
  OneTrial-IsKept intent unforced t u (expiring _ now s asked stored late) h =
      AtMostOne-Shrinks orm has_trial t _
        (Shrinks-save orm has_trial t s (expired s) stored refl refl (λ e. e)) h

  -- the only open subscription of a hotel is its current one
  pub OneOpen-IsCurrent :
      (t : SubTable orm) (k : ℕ) (s : Subscription)
      → OneOpen t
      → orm.get t k ≡ some s
      → is_open s ≡ true
      → IsCurrent orm s.hotel_id t (some s)
  OneOpen-IsCurrent t k s single stored live =
      elim (Option-cases (orm.find_one (λ x. x.hotel_id == s.hotel_id && is_open x) t)) [
        | inl missed ↦
            let failed = orm.find_one-none _ t k s missed stored in
            absurd (ground (arith, ==_refl s.hotel_id))
        | inr (x, hit) ↦
            let (row, passed) = orm.find_one-some _ t x hit in
            let same : x.id ≡ k = single x.id k x s row stored (ground arith) live (ground arith) in
            hit ∙ sym row ∙ ap (orm.get t) same ∙ stored
      ]

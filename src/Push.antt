-- ===== src/Push.antt =====
-- src/modules/push/push-quiet-hours.ts: a push that falls into the hotel's quiet hours is held until they
-- end. A minute of the day is below 1440; there `end - minutes + 1440` is not negative.
use hotello_backend.Common.{
  inl, inr, refl, Bool-cases, ℕ, ◌+◌, ◌-◌, ◌*◌, ◌%◌, ◌<◌, ◌≤◌, ◌≡◌, sym, ap, ◌∙◌, Bool, true, false,
  ◌&&◌, ◌||◌, Option, none, some, Text, ◌==◌, ltb, leb, if◌then◌else◌, arith,
}
use hotello_backend.Clock.{Intl, hotel_local_parts, minutes_of}

-- the window on minutes; equal ends switch it off
unfoldable pub is_quiet : ℕ → ℕ → ℕ → Bool
is_quiet s e minutes =
    if s == e
    then false
    else if ltb s e
    then leb s minutes && ltb minutes e
    else leb s minutes || ltb minutes e

abbrev pub until_end : ℕ → ℕ → ℕ
until_end e minutes = (e + 1440 - minutes) % 1440

unfoldable pub quiet_hold : Intl → Text → ℕ → Text → Text → Option ℕ
unfolding is_quiet minutes_of hotel_local_parts
quiet_hold intl timezone now start end =
    let minutes = (hotel_local_parts intl timezone now).minutes in
    if is_quiet (minutes_of start) (minutes_of end) minutes
    then some (now + until_end (minutes_of end) minutes * 60_000)
    else none

still_quiet :
    (s e m k : ℕ)
    → s < 1440
    → e < 1440
    → m < 1440
    → is_quiet s e m ≡ true
    → k < until_end e m
    → is_quiet s e ((m + k) % 1440) ≡ true
unfolding is_quiet
still_quiet s e m k hs he hm quiet before = ground arith

over :
    (s e m : ℕ)
    → s < 1440
    → e < 1440
    → m < 1440
    → is_quiet s e m ≡ true
    → is_quiet s e ((m + until_end e m) % 1440) ≡ false
unfolding is_quiet
over s e m hs he hm quiet = ground arith

-- a minute later in the window is as much nearer to its end
nearer :
    (e m k : ℕ)
    → e < 1440
    → m < 1440
    → k < until_end e m
    → until_end e ((m + k) % 1440) ≡ until_end e m - k
nearer e m k he hm before = omega arith

-- `quiet_hold` at a local minute
hold : ℕ → ℕ → ℕ → ℕ → Option ℕ
hold s e minutes now =
    if is_quiet s e minutes then some (now + until_end e minutes * 60_000) else none

held_at :
    (intl : Intl) (timezone : Text) (now : ℕ) (start end : Text) (minutes : ℕ)
    → (hotel_local_parts intl timezone now).minutes ≡ minutes
    → quiet_hold intl timezone now start end ≡ hold (minutes_of start) (minutes_of end) minutes now
unfolding quiet_hold hold
held_at intl timezone now start end minutes at =
    ap (λ m. hold (minutes_of start) (minutes_of end) m now) at

hold_quiet :
    (s e m now : ℕ) → is_quiet s e m ≡ true → hold s e m now ≡ some (now + until_end e m * 60_000)
unfolding hold
hold_quiet s e m now quiet = rw quiet refl

hold_loud : (s e m now : ℕ) → is_quiet s e m ≡ false → hold s e m now ≡ none
unfolding hold
hold_loud s e m now loud = rw loud refl

-- For quiet hours within a day, and as long as the hotel's local clock moves minute by minute from now to the
-- release (no change of the time zone's offset in between): a held push is released a whole number of
-- minutes later, a push at that instant is not held, and a push at any minute before it is held to the
-- same instant.
pub quiet_hold_ends :
    (intl : Intl) (timezone : Text) (now : ℕ) (start end : Text) (t : ℕ)
    → minutes_of start < 1440
    → minutes_of end < 1440
    → (hotel_local_parts intl timezone now).minutes < 1440
    → quiet_hold intl timezone now start end ≡ some t
    → ((k : ℕ)
        → now + k * 60_000 ≤ t
        → (hotel_local_parts intl timezone (now + k * 60_000)).minutes
          ≡ ((hotel_local_parts intl timezone now).minutes + k) % 1440)
    → (d : ℕ) × (t ≡ now + d * 60_000)
      × (quiet_hold intl timezone t start end ≡ none)
      × ((k : ℕ) → k < d → quiet_hold intl timezone (now + k * 60_000) start end ≡ some t)
quiet_hold_ends intl timezone now start end t hs he hm held ticks =
    let m = (hotel_local_parts intl timezone now).minutes in
    let s = minutes_of start in
    let e = minutes_of end in
    let d = until_end e m in
    let first = sym (held_at intl timezone now start end m refl) ∙ held in
    elim (Bool-cases (is_quiet s e m)) [
      | inl quiet ↦
          let at : some (now + d * 60_000) ≡ some t = sym (hold_quiet s e m now quiet) ∙ first in
          let same : t ≡ now + d * 60_000 = cc in
          (
            d,
            same,
            held_at intl timezone t start end ((m + d) % 1440) (
                  ap (λ x. (hotel_local_parts intl timezone x).minutes) same
                  ∙ ticks d (omega (arith, same)))
                ∙ hold_loud s e ((m + d) % 1440) t (over s e m hs he hm quiet),
            λ k before.
                held_at intl timezone (now + k * 60_000) start end ((m + k) % 1440)
                  (ticks k (omega (arith, same, before)))
                ∙ hold_quiet s e ((m + k) % 1440) (now + k * 60_000)
                    (still_quiet s e m k hs he hm quiet before)
                ∙ ap some (
                    ap (λ x. now + k * 60_000 + x * 60_000) (nearer e m k he hm before)
                    ∙ left k d before
                    ∙ sym same),
          )
      | inr loud ↦ let q : none ≡ some t = sym (hold_loud s e m now loud) ∙ first in cc
    ]
  where
    left : (k d : ℕ) → k < d → now + k * 60_000 + (d - k) * 60_000 ≡ now + d * 60_000
    left k d before = omega arith

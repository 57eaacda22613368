-- ===== src/Fnb/Availability.antt =====
-- src/modules/fnb/fnb-availability.ts: the windows in which a menu takes orders, on the hotel's clock.
-- A minute of the day is below 1440; there `a - b + 1440` is not negative.
pub mod Soonest
use hotello_backend.Common.{
  ℕ, ◌+◌, ◌-◌, ◌%◌, Bool, true, false, ◌&&◌, ◌||◌, Option, none, some, List, [], ◌∷◌, map, any,
  Text, ◌==◌, ltb, leb, if◌then◌else◌,
}
use hotello_backend.Clock.{minutes_of}

pub record FnbWindow : Type 0 where
  pub start : Text
  pub end : Text

pub record MenuAvailability : Type 0 where
  pub available : Bool
  pub opens_at : Option Text

-- the test on the minutes of the two ends
unfoldable pub is_between : ℕ → ℕ → ℕ → Bool
is_between start end minutes =
    if start == end
    then true
    else if ltb start end
    then leb start minutes && ltb minutes end
    else leb start minutes || ltb minutes end

unfoldable pub is_within_window : FnbWindow → ℕ → Bool
unfolding minutes_of is_between
is_within_window w minutes = is_between (minutes_of w.start) (minutes_of w.end) minutes

pub record Opening : Type 0 where
  pub start : Text
  pub delta : ℕ

abbrev pub forward : ℕ → ℕ → ℕ
forward start minutes = (start + 1440 - minutes) % 1440

unfoldable pub opening : ℕ → FnbWindow → Opening
unfolding minutes_of
opening minutes w = record { start = w.start; delta = forward (minutes_of w.start) minutes }

-- `sort((a, b) => a.delta - b.delta)`, which is stable
unfoldable pub insert : Opening → List Opening → List Opening
insert x [] = x ∷ []
insert x (y ∷ ys) = if leb x.delta y.delta then x ∷ y ∷ ys else y ∷ insert x ys

unfoldable pub sort : List Opening → List Opening
unfolding insert
sort [] = []
sort (x ∷ xs) = insert x (sort xs)

abbrev pub first_start : List Opening → Option Text
first_start [] = none
first_start (x ∷ _) = some x.start

unfoldable pub menu_availability : List FnbWindow → ℕ → MenuAvailability
unfolding any is_within_window opening sort
menu_availability [] minutes = record { available = true; opens_at = none }
menu_availability (v ∷ vs) minutes =
    if any (λ w. is_within_window w minutes) (v ∷ vs)
    then record { available = true; opens_at = none }
    else record {
      available = false;
      opens_at = first_start (sort (map (opening minutes) (v ∷ vs)));
    }

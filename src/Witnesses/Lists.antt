-- ===== src/Witnesses/Lists.antt =====
-- The theorems on lanes, applied to a row in the caller's lane and a row of someone else.
use hotello_backend.Common.{ℕ, Option, none, some, [], ◌∷◌, ◌==◌, if◌then◌else◌}
use hotello_backend.Lanes.{
  AllAnswer, Lists, full, apply_lane_filter-full, Lane, mine, me, taken, delta, requested_lanes,
  apply_lane_filter, apply_lane_filter-delta,
}

abbrev lane_of : ℕ → Option Lane
lane_of row = if row == 1 then some mine else none

apply_lane_filter-delta_example :
    AllAnswer
      (λ (n : ℕ). n)
      (requested_lanes me)
      lane_of
      (λ row. taken)
      (1 ∷ 2 ∷ [])
      (apply_lane_filter (λ n. n) (requested_lanes me) lane_of (λ row. taken) delta (1 ∷ 2 ∷ []))
apply_lane_filter-delta_example =
    apply_lane_filter-delta (λ n. n) (requested_lanes me) lane_of (λ row. taken) (1 ∷ 2 ∷ [])

apply_lane_filter-full_example :
    Lists
      (λ (n : ℕ). n)
      (requested_lanes me)
      lane_of
      (λ row. taken)
      (1 ∷ 2 ∷ [])
      (apply_lane_filter (λ n. n) (requested_lanes me) lane_of (λ row. taken) full (1 ∷ 2 ∷ []))
apply_lane_filter-full_example =
    apply_lane_filter-full (λ n. n) (requested_lanes me) lane_of (λ row. taken) (1 ∷ 2 ∷ [])

-- ===== src/Calendar/RoundTrip.antt =====
-- A date that is printed and read back is the same day: `toISOString().slice(0, 10)` and `Date.parse`.
use hotello_backend.Common.{
  ℕ, ◌+◌, ◌-◌, ◌*◌, ◌/◌, ◌%◌, ◌≤◌, ◌<◌, ◌≡◌, refl, ◌∙◌, inl, inr, arith, true, false, Bool-cases,
  ◌⊎◌, ltb, leb,
}
use hotello_backend.Clock.Digits.{parse_int-two, parse_int-four}
use hotello_backend.Calendar.{
  Civil, civil, of_day_of_era, civil_of_days, date_text, days_of_parts, iso_date, parse_date,
  days_left,
}

year_of : ℕ → ℕ
year_of doe = (doe - doe / 1460 + doe / 36_524 - doe / 146_096) / 365

-- a day of an era is at most a year after the first day of its year
low :
    (doe y a b c : ℕ)
    → doe < 146_097
    → a ≡ doe / 1460
    → b ≡ doe / 36_524
    → c ≡ doe / 146_096
    → y ≡ (doe - a + b - c) / 365
    → 365 * y + y / 4 - y / 100 ≤ doe
low doe y a b c h ea eb ec ey = omega arith

high :
    (doe y a b c : ℕ)
    → doe < 146_097
    → a ≡ doe / 1460
    → b ≡ doe / 36_524
    → c ≡ doe / 146_096
    → y ≡ (doe - a + b - c) / 365
    → doe ≤ 365 * y + y / 4 - y / 100 + 365
high doe y a b c h ea eb ec ey = omega arith

-- the day of a date that is counted from March
days_of_civil :
    (y m d : ℕ)
    → m < 12
    → (days_of_parts (civil y m d).year (civil y m d).month (civil y m d).day)
      ≡ 365 * y + y / 4 - y / 100 + y / 400 + (153 * m + 2) / 5 + (d - 1)
unfolding days_of_parts civil
days_of_civil y m d small = elim (Bool-cases (leb m 9)) [
  | inl early ↦ let spring : leb 3 (m + 3) ≡ true = ground arith in rw (early, spring) (omega arith)
  | inr late ↦
      let winter : leb 3 (m - 9) ≡ false = ground arith in
      let autumn : 9 ≤ m = ground arith in rw (late, winter) (omega arith)
]

-- the year, the month and the day that a day of an era is split into sum up to it
recomposed :
    (era doe y doy m : ℕ)
    → y < 400
    → doe ≡ 365 * y + y / 4 - y / 100 + doy
    → m ≡ (5 * doy + 2) / 153
    → 365 * (y + era * 400)
        + (y + era * 400) / 4
        - (y + era * 400) / 100
        + (y + era * 400) / 400
        + (153 * m + 2) / 5
        + (doy - (153 * m + 2) / 5 + 1 - 1)
      ≡ era * 146_097 + doe
recomposed era doe y doy m bound split month =
    let before : (153 * m + 2) / 5 ≤ doy = omega arith in
    let fourth : (y + era * 400) / 4 ≡ y / 4 + 100 * era = omega arith in
    let century : (y + era * 400) / 100 ≡ y / 100 + 4 * era = omega arith in
    let cycle : (y + era * 400) / 400 ≡ era = omega arith in
    rw (fourth, century, cycle) (omega arith)

module _ (z : ℕ) where
  -- what `of_day_of_era` computes for the day `z`
  abbrev doe : ℕ
  doe = z % 146_097

  abbrev year_of_era : ℕ
  year_of_era = (doe - doe / 1460 + doe / 36_524 - doe / 146_096) / 365

  abbrev day_of_year : ℕ
  day_of_year = doe - (365 * year_of_era + year_of_era / 4 - year_of_era / 100)

  abbrev month_of : ℕ
  month_of = (5 * day_of_year + 2) / 153

  doe_bound : doe < 146_097
  doe_bound = omega arith

  year_bound : year_of_era < 400
  year_bound = omega (arith, doe_bound)

  split : doe ≡ 365 * year_of_era + year_of_era / 4 - year_of_era / 100 + day_of_year
  split = omega (arith, low doe year_of_era _ _ _ doe_bound refl refl refl refl)

  in_year : day_of_year ≤ 365
  in_year = omega (arith, high doe year_of_era _ _ _ doe_bound refl refl refl refl)

  month_bound : month_of < 12
  month_bound = omega (arith, in_year)

  date_of_day :
      days_of_parts (civil_of_days z).year (civil_of_days z).month (civil_of_days z).day ≡ z
  unfolding civil_of_days of_day_of_era
  date_of_day =
      days_of_civil (year_of_era + z / 146_097 * 400) month_of
        (day_of_year - (153 * month_of + 2) / 5 + 1) month_bound
      ∙ recomposed (z / 146_097) doe year_of_era day_of_year month_of year_bound split refl
      ∙ whole
    where
      whole : z / 146_097 * 146_097 + z % 146_097 ≡ z
      whole = omega arith

text_of_date :
    (c : Civil)
    → c.year < 10_000
    → c.month < 100
    → c.day < 100
    → parse_date (date_text c) ≡ days_of_parts c.year c.month c.day
unfolding parse_date date_text
text_of_date c y m d =
    rw (parse_int-four c.year y, parse_int-two c.month m, parse_int-two c.day d) refl

module _ (z : ℕ) (soon : z < 3_652_059) where
  era_bound : z / 146_097 < 24 ⊎ ((z / 146_097 ≡ 24) × (z % 146_097 < 145_731))
  era_bound = elim (Bool-cases (ltb (z / 146_097) 24)) [
    | inl p ↦ inl (ground arith)
    | inr p ↦ let late : 24 ≤ z / 146_097 = ground arith in inr (omega arith, omega arith)
  ]

  march_year : year_of_era z + z / 146_097 * 400 < 9999
  march_year = elim era_bound [
    | inl p ↦ omega (arith, p, year_bound z)
    | inr (p, q) ↦ let y : year_of_era z ≤ 398 = omega (arith, q) in omega arith
  ]

  civil_bounds :
      ((civil_of_days z).year < 10_000)
      × ((civil_of_days z).month < 100)
      × ((civil_of_days z).day < 100)
  unfolding civil_of_days of_day_of_era civil
  civil_bounds =
      let m = month_bound z in
      let y = march_year in
      let in_month : day_of_year z - (153 * month_of z + 2) / 5 + 1 < 100 = omega arith in
      (ground arith, ground arith, in_month)

  date_text_day : parse_date (date_text (civil_of_days z)) ≡ z
  date_text_day =
      let (y, m, d) = civil_bounds in text_of_date (civil_of_days z) y m d ∙ date_of_day z

-- The date of an instant in UTC, printed and read back, is the day of the instant, and so the days between
-- two printed dates are the days between the instants, 0 where the second is earlier. Both instants
-- are before March of the year 9999.
pub days_left-iso_date :
    (from to : ℕ)
    → from < 253_375_862_400_000
    → to < 253_375_862_400_000
    → days_left (iso_date from) (iso_date to) ≡ to / 86_400_000 - from / 86_400_000
unfolding days_left iso_date
days_left-iso_date from to soon soon' =
    rw
      (
        date_text_day (from / 86_400_000 + 719_468) (omega arith),
        date_text_day (to / 86_400_000 + 719_468) (omega arith),
      )
      (omega arith)

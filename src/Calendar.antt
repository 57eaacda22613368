-- ===== src/Calendar.antt =====
-- Calendar days: what src/modules/tenant-stays uses of the JavaScript `Date`. `Date.parse` on a date
-- and `toISOString().slice(0, 10)` in the proleptic Gregorian calendar, by the day numbers of
-- ECMAScript, and `daysBetween` of src/modules/tenant-stays/stay-time.ts.
pub mod RoundTrip
use hotello_backend.Common.{ℕ, ◌+◌, ◌-◌, ◌*◌, ◌/◌, ◌%◌, [], ◌∷◌, Text, leb, if◌then◌else◌}
use hotello_backend.Clock.{parse_int}

-- the days from 0000-03-01 to a date whose year begins in March
abbrev pub day_number : ℕ → ℕ → ℕ → ℕ
day_number y m d = 365 * y + y / 4 - y / 100 + y / 400 + (153 * m + 2) / 5 + (d - 1)

-- `Date.parse(date)` in days, for a date `YYYY-MM-DD`
unfoldable pub days_of_parts : ℕ → ℕ → ℕ → ℕ
days_of_parts year month day =
    if leb 3 month then day_number year (month - 3) day else day_number (year - 1) (month + 9) day

unfoldable pub parse_date : Text → ℕ
unfolding days_of_parts parse_int
parse_date (a ∷ b ∷ c ∷ d ∷ _ ∷ e ∷ f ∷ _ ∷ rest) =
    days_of_parts (parse_int (a ∷ b ∷ c ∷ d ∷ [])) (parse_int (e ∷ f ∷ [])) (parse_int rest)
parse_date _ = 0

-- `Math.max(0, daysBetween(from, to))`
unfoldable pub days_left : Text → Text → ℕ
unfolding parse_date
days_left from to = parse_date to - parse_date from

abbrev pub digit : ℕ → ℕ
digit n = 48 + n % 10

-- a date of the calendar year
pub record Civil : Type 0 where
  pub year : ℕ
  pub month : ℕ
  pub day : ℕ

-- a date by its year, its month from March and its day of the month
civil : ℕ → ℕ → ℕ → Civil
civil year month day = record {
  year = if leb month 9 then year else year + 1;
  month = if leb month 9 then month + 3 else month - 9;
  day = day;
}

of_day_of_era : ℕ → ℕ → Civil
unfolding civil
of_day_of_era era doe =
    let yoe = (doe - doe / 1460 + doe / 36_524 - doe / 146_096) / 365 in
    let doy = doe - (365 * yoe + yoe / 4 - yoe / 100) in
    let month = (5 * doy + 2) / 153 in
    civil (yoe + era * 400) month (doy - (153 * month + 2) / 5 + 1)

-- the date of a day counted from 0000-03-01
unfoldable pub civil_of_days : ℕ → Civil
unfolding of_day_of_era
civil_of_days z = of_day_of_era (z / 146_097) (z % 146_097)

date_text : Civil → Text
date_text c =
    digit (c.year / 1000)
    ∷ digit (c.year / 100)
    ∷ digit (c.year / 10)
    ∷ digit c.year
    ∷ b'-'
    ∷ digit (c.month / 10)
    ∷ digit c.month
    ∷ b'-'
    ∷ digit (c.day / 10)
    ∷ digit c.day
    ∷ []

-- the UTC date of an instant in milliseconds
unfoldable pub iso_date : ℕ → Text
unfolding civil_of_days date_text
iso_date now = date_text (civil_of_days (now / 86_400_000 + 719_468))

-- ===== src/Events/Time.antt =====
-- src/modules/events/event-time.ts: hotel-local stamps `YYYY-MM-DD HH:MM`.
use hotello_backend.Common.{
  ℕ, ◌+◌, ◌-◌, ◌*◌, ◌/◌, ◌%◌, Bool, ◌&&◌, Option, none, some, [], ◌∷◌, ◌++◌, Text, ◌==◌, ltb, leb,
  if◌then◌else◌,
}
use hotello_backend.Clock.{Intl, hotel_local_parts, parse_int}
use hotello_backend.Calendar.{days_of_parts, civil_of_days, digit}

-- `String(n).padStart(2, '0')`, for a number below 100
abbrev pub pad : ℕ → Text
pad n = digit (n / 10) ∷ digit n ∷ []

unfoldable pub hotel_local_stamp : Intl → Text → ℕ → Text
unfolding hotel_local_parts
hotel_local_stamp intl timezone now =
    let local = hotel_local_parts intl timezone now in
    local.date ++ (32 ∷ (pad (local.minutes / 60) ++ (b':' ∷ pad (local.minutes % 60))))

abbrev is_digit : ℕ → Bool
is_digit c = leb 48 c && leb c 57

-- the digits that STAMP_RE captures
pub record StampParts : Type 0 where
  pub year : ℕ
  pub month : ℕ
  pub day : ℕ
  pub hour : ℕ
  pub minute : ℕ

-- `STAMP_RE.exec(stamp)`
unfoldable pub match_stamp : Text → Option StampParts
unfolding parse_int
match_stamp (a ∷ b ∷ c ∷ d ∷ s ∷ e ∷ f ∷ t ∷ g ∷ h ∷ u ∷ i ∷ j ∷ v ∷ k ∷ l ∷ []) =
    if is_digit a
      && is_digit b
      && is_digit c
      && is_digit d
      && s == b'-'
      && is_digit e
      && is_digit f
      && t == b'-'
      && is_digit g
      && is_digit h
      && u == 32
      && is_digit i
      && is_digit j
      && v == b':'
      && is_digit k
      && is_digit l
    then some (record {
      year = parse_int (a ∷ b ∷ c ∷ d ∷ []);
      month = parse_int (e ∷ f ∷ []);
      day = parse_int (g ∷ h ∷ []);
      hour = parse_int (i ∷ j ∷ []);
      minute = parse_int (k ∷ l ∷ []);
    })
    else none
match_stamp _ = none

-- `Date.UTC(year, month - 1, day, hour, minute)` in minutes since 0000-03-01: a year below 100 counts
-- from 1900, and a month or a day out of its range is carried over
unfoldable pub utc_minutes : StampParts → ℕ
unfolding days_of_parts
utc_minutes p =
    let year : ℕ = if ltb p.year 100 then p.year + 1900 else p.year in
    let months = year * 12 + p.month - 1 in
    let days = days_of_parts (months / 12) (months % 12 + 1) 1 + p.day - 1 in
    days * 1440 + p.hour * 60 + p.minute

-- `${getUTCFullYear()}`, for a year from 100 to 99999
abbrev year_text : ℕ → Text
year_text y =
    if ltb y 1000
    then digit (y / 100) ∷ digit (y / 10) ∷ digit y ∷ []
    else if ltb y 10_000
    then digit (y / 1000) ∷ digit (y / 100) ∷ digit (y / 10) ∷ digit y ∷ []
    else digit (y / 10_000) ∷ digit (y / 1000) ∷ digit (y / 100) ∷ digit (y / 10) ∷ digit y ∷ []

unfoldable pub stamp_text : ℕ → Text
unfolding civil_of_days
stamp_text minutes =
    let c = civil_of_days (minutes / 1440) in
    year_text c.year
    ++ (b'-'
        ∷ (pad c.month
            ++ (b'-'
                ∷ (pad c.day ++ (32 ∷ (pad (minutes / 60 % 24) ++ (b':' ∷ pad (minutes % 60))))))))

-- none where the source throws an `Error`
unfoldable pub add_minutes_local : Text → ℕ → Option Text
unfolding match_stamp utc_minutes stamp_text
add_minutes_local stamp minutes = elim (match_stamp stamp) [
  | none ↦ none
  | some p ↦ some (stamp_text (utc_minutes p + minutes))
]
